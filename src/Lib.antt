-- ===== src/Lib.antt =====
-- Verification of the CloudSigma provider for Cluster API: the machine and cluster controllers, the
-- client of the cloud that they use, the CSI driver, the load balancer, node and token controllers of
-- the cloud controller manager, the client that gets tokens for users, and the tags on servers and
-- drives.
--
-- How the parts interact. All of them call the CloudSigma API. The CSI driver and pkg/cloud call it
-- through the Go SDK, the load balancer controller by HTTP with tokens that the impersonation client
-- gets and keeps. The machine controller keeps a server for each CloudSigmaMachine through the client
-- of pkg/cloud, in the account of the cluster's user. The CSI driver creates, deletes and resizes
-- drives and puts them into the drive lists of servers. The load balancer controller gives IPs of its
-- pools to services, on healthy nodes. Servers, drives and IPs carry tags that say which cluster uses
-- them.
--
-- Files:
--   Prelude.antt, Prelude/: tests, results of calls that may fail, maps, texts.
--   CloudSdk.antt: the records and calls of the SDK that the code uses. The calls are parameters, as
--     records of actions on a state that the development knows nothing of.
--   GoError.antt: pkg/cloud/errors.go.
--   Tags.antt: pkg/cloud/tags.go (TagServer, UntagServer, ensureTagWithResource). Tags/Store.antt
--     states the laws of the tags API that theorems may ask for; Tags/Memory.antt has an API that
--     keeps them.
--   Csi/: csi/driver/. Csi/Types.antt has the requests and the driver (driver.go), Csi/Tagging.antt
--     tags.go, and Csi/Channel.antt, Csi/Volume.antt and Csi/Attach.antt controller.go:
--     findNextDeviceChannel; CreateVolume, DeleteVolume, ControllerExpandVolume and the validation;
--     ControllerPublishVolume and ControllerUnpublishVolume. Csi/Volume/Store.antt and
--     Csi/Attach/Store.antt state the laws of the API, and Csi/Memory.antt a cloud that keeps them.
--   LoadBalancer/: ccm/controllers/loadbalancer_controller.go. Types.antt has the state
--     (LoadBalancerController), Pool.antt what only computes, IpTags.antt the tags on IPs, Nodes.antt
--     the NICs and pods, Reconcile.antt allocateIP and reconcileService, Sync.antt the sync with its
--     cleanup and failover, the start and the shutdown.
--   NodeSync.antt, NodeSync/: ccm/controllers/node_controller.go (syncNodes, reconcileNode,
--     getVMAddresses, handleStaleNode), with staleNodeFailures as the state; Refresh.antt has the
--     client of the SDK and the rounds of syncLoop with it.
--   Cloud/: pkg/cloud. Types.antt has the client and the documents, Connect.antt client.go,
--     Drives.antt drives.go, Network.antt ips.go and vlans.go, Custom.antt servers_custom.go, and
--     Servers.antt servers.go, with the document of CreateServer in Servers/Build.antt and its steps
--     in Servers/Create.antt. Servers/Store.antt states the laws of the drive calls, and Memory.antt
--     has services that keep them.
--   Machine/: controllers/cloudsigmamachine_controller.go. Types.antt has the machine and the
--     Kubernetes API, Steps.antt the updates, Normal.antt reconcileNormal, Delete.antt reconcileDelete
--     and Reconcile.antt Reconcile with the choice of the credentials. Store.antt states the laws of
--     the calls, and Memory.antt has a cloud that keeps them.
--   Cluster.antt, Cluster/: controllers/cloudsigmacluster_controller.go.
--   CsiNode.antt, CsiNode/: csi/driver/node.go. Devices.antt finds, formats and resizes the device
--     of a volume, Volumes.antt has the calls, and Content.antt the laws of the host.
--   CsiToken.antt, CsiToken/: ccm/controllers/csi_token_controller.go.
--   Auth/: pkg/auth/impersonation.go. Types.antt has the state, Auth.antt the three requests with
--     their caches.
--   Each Examples.antt runs the code on concrete data, and the theorems too.
--
-- Reading the models. A method is a function from the state of its receiver and of the outside to a
-- result and the states after it; a function keeps the name of the Go function. A step that fails
-- keeps what was done before it. A loop over a list is structural recursion, and so needs no fuel.
-- The device channels are tried by recursion on the units and controllers that are left, 3 of each
-- of 202 controllers after 0:2, as in the code; the wait for a detachment makes as many rounds as
-- the code. An object of Kubernetes that is updated is replaced by the one in the answer. Where the
-- code ranges over a map, the model takes the order in which the keys were added, and where it
-- names the error of a call in a longer text that nothing reads, a shorter one.
--
-- Limits. Sizes are natural numbers, and the fields of a CSI capacity range, which may be negative,
-- integers. Their products stay below 2 ^ 63. Times are nanoseconds. Locks are left out: a call is
-- one step. The wait for a drive runs on rounds, one for each 5 seconds of its timeout and one
-- more, which are enough when no tick of the ticker comes early; reconcileDelete polls 12 times, as
-- in the code; the provisioning of the CSI token runs on any number of rounds, as do the syncs of
-- the nodes. The search for a new device tries 20 times, as in the code. Left out are the identity
-- service and NodeGetCapabilities, which answer with constants, the refresh loops around modelled
-- calls, and the commands, which parse flags and start the controllers.
pub mod Prelude
pub mod CloudSdk
pub mod GoError
pub mod Tags
pub mod Csi
pub mod LoadBalancer
pub mod Auth
pub mod NodeSync
pub mod Cloud
pub mod Machine
pub mod Cluster
pub mod CsiToken
pub mod CsiNode
