-- ===== src/Lib.antt =====
-- The fileblock CSI driver: it keeps volumes as image files on an NFS export or a local directory,
-- attaches them to loop devices, encrypts them with LUKS where asked, and mounts their ext4.
--
-- Parts, each in a file tree of its name:
--   Base        texts as byte lists, int64 with its wrap-around, Go maps as association lists,
--               path.Clean
--   Host        what the driver calls and does not implement (pkg/exec.Runner, os, the Kubernetes
--               API, SHA-256, JSON decoding): a record of functions on an unknown state
--   Machine     the state of a plugin process (registry, state entries, failures, keys, and a log
--               of the calls made), and actions on it: a Go function that may fail is an action
--   Store       pkg/store: configurations, their parameters, identifiers, mounters, the registry
--   Image       pkg/image: image files and the ext4 commands; Volumes is the store that they
--               implement, over the laws of a directory in Disk
--   Mount       pkg/mount: mount, umount, findmnt, and the rows of mountinfo
--   Crypt       pkg/crypt: cryptsetup, the key rotation, the dm-crypt devices in sysfs
--   Loop        pkg/loop: losetup, the state entries, the state file and its flush call by call,
--               the sector size, the reconcile pass
--   Driver      pkg/driver: capabilities, encryption parameters, failure marks
--   Controller  pkg/driver/controller.go: the CSI controller service
--   Node        pkg/driver/node.go: the CSI node service
--   Monitor     pkg/driver/monitor.go: finding volumes forced read-only, and deleting their pods
--   Kube        pkg/kube/client.go: the API calls, over a record of the HTTP client and JSON
--               decoding
--   Exec        pkg/exec/exec.go: a command and the pipes of its secrets, over a record of pipe,
--               start, wait; System puts it under the driver's actions; pkg/exec/exectest/fake.go:
--               the fake runner of the unit tests
--   Server      pkg/driver/server.go and identity.go: the endpoint, the services, the constant
--               answers
--   Program     cmd/node, cmd/controller, hack/csi-call: the start of the plugins, and the
--               smoke-test tool
--   Tests       a sample host, and the theorems on concrete runs
--
-- The controller and the node ask Store.Registry for the path of a backing store, Image for the
-- image in it, and the node brings the image up through Loop, Crypt and Mount. The monitor marks
-- failures that the node's publish acts on.
--
-- Conventions. An action takes a machine to a result and a machine; what it changed before an
-- error stays changed. A call that the code makes under a lock is one action; the locks of the
-- volumes themselves are a step relation in Node.Locks, with any number of requests in any order.
-- Every command, removal, truncation, written file, made directory, event and pod deletion is
-- recorded in the log, the newest first. An error keeps what errors.Is, errors.As and status.Code
-- can tell, and no message. Times are seconds.
--
-- Loops. The unmounting of a staging path stops after 8 unmounts, as the code does. The halving of
-- a sector size runs on fuel, at first the size itself, which each step at least halves. All other
-- loops are structural.
--
-- The actions of the driver call the runner, the API and the state file through Host; Exec, Kube
-- and Loop.StateFile model what stands behind those calls, each over a record of its own.
-- Exec.System makes a Host whose commands are run by the runner of Exec.
--
-- Not modelled: the parsing of the plugins' flags, the JSON layout of the state file, the
-- interceptor and all log messages, the timer between two ticks, the end-to-end tests and their
-- helpers, which run kubectl. The flag package of csi-call and its gRPC client are records of
-- functions. The order in which Go ranges over a map is the order of the association list.
pub mod Base
pub mod Store
pub mod Host
pub mod Machine
pub mod Image
pub mod Mount
pub mod Crypt
pub mod Loop
pub mod Driver
pub mod Exec
pub mod Server
pub mod Program
pub mod Kube
pub mod Controller
pub mod Node
pub mod Monitor
pub mod Tests
