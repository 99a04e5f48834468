-- ===== src/Node/Plan.antt =====
-- pkg/driver/node.go: what a stage reads from its request, and what it leaves in the process.
use fileblock_csi.Base.{
  Bool, true, false, not, ◌&&◌, Option, some, Result, ok, err, [], if◌then◌else◌,
}
use fileblock_csi.Base.Text.{Text, lit, text_eq}
use fileblock_csi.Base.Dict.{lookup, insert, has_key}
use fileblock_csi.Host.{
  Host, Error, status, internal, invalid_argument, resource_exhausted, pool_exhausted,
}
use fileblock_csi.Machine.{M, Done, Mapping, Keys, pure, modify}
use fileblock_csi.Store.Config.{Config}
use fileblock_csi.Store.Parse.{Params, get, config_from_volume_context}
use fileblock_csi.Crypt.Luks.{Format, default_format}
use fileblock_csi.Driver.Capability.{Capability, mount_options_from_cap}
use fileblock_csi.Driver.Encryption.{param_encrypted, format_from_params, keys_from_secrets}
use fileblock_csi.Driver.Failures

pub record StageRequest : Type 0 where
  pub volume_id : Text
  pub staging_path : Text
  pub context : Params
  pub secrets : Params
  pub capability : Option Capability

abbrev pub no_keys : Keys
no_keys = record { current = []; previous = [] }

-- The request with what the code reads from it before it touches anything.
pub record Plan : Type 0 where
  pub request : StageRequest
  pub open request use *
  pub config : Config
  pub encrypted : Bool
  pub keys : Keys
  pub format : Format

abbrev pub to_invalid {κ} : {E : Type κ} {A : Type 0} → Result E A → Result Error A
to_invalid (ok a) = ok a
to_invalid (err e) = err (status invalid_argument)

unfoldable pub plan_of : StageRequest → Result Error Plan
unfolding config_from_volume_context get keys_from_secrets format_from_params text_eq
plan_of req = elim (config_from_volume_context req.context) [
  | err e ↦ err (status invalid_argument)
  | ok c ↦
      if not (text_eq (get req.context param_encrypted) (lit "true"))
      then ok (record {
        request = req;
        config = c;
        encrypted = false;
        keys = no_keys;
        format = default_format;
      })
      else elim (keys_from_secrets req.secrets) [
        | err e ↦ err e
        | ok k ↦ elim (format_from_params req.context true) [
          | err e ↦ err (status invalid_argument)
          | ok f ↦ ok (record { request = req; config = c; encrypted = true; keys = k; format = f })
        ]
      ]
]

abbrev pub attach_status : Error → Error
attach_status pool_exhausted = status resource_exhausted
attach_status e = status internal

module _ (h : Host) where
  -- cacheKeys
  unfoldable pub cache_keys : Text → Keys → Bool → M h Done
  unfolding lookup insert
  cache_keys id k replace =
      modify h (λ s.
        if has_key id s.keys && not replace then s else record s { keys = insert id k s.keys })

  abbrev pub cache_if : Bool → Text → Keys → Bool → M h Done
  cache_if false id k replace = pure tt
  cache_if true id k replace = cache_keys id k replace

  unfoldable pub clear_failure : Text → M h Done
  unfolding Failures.clear
  clear_failure id = modify h (λ s. record s { failures = Failures.clear id s.failures })

  abbrev pub entry_of : Plan → Text → Text → Text → Mapping
  entry_of p image dev crypt_dev = record {
    volume_id = p.volume_id;
    loop_dev = dev;
    image_path = image;
    stage_path = p.staging_path;
    crypt_dev = crypt_dev;
    stage_context = some p.context;
    mount_flags = mount_options_from_cap p.capability;
  }
