-- ===== src/Lib.antt =====
-- MeshPay: offline payments between clients of a mesh network, certified by a committee of
-- authorities (meshpay/types and meshpay/offline), and carried by routers that store bundles and
-- exchange them when they meet (dtn).
--
-- A client signs a transfer order and sends it to the authorities. An authority whose checks it
-- passes returns its vote, bound to the weights of the current epoch, and keeps the order as pending
-- for the sender. Votes of more than two thirds of the weight make a confirmation, which every
-- authority applies to its accounts. The weights of an epoch come from the finalizations of the
-- epochs before it, which the authorities and clients record in one shared registry file.
--
-- Base: texts, numbers, lists and dicts as the other modules use them. Python's `int` is `ℤ`, over
--   the native numbers; a dict is a list of pairs in insertion order.
-- Value: JSON values and the exceptions that the code raises.
-- Runtime (meshpay/offline/crypto.py): sha256, json.dumps, UUIDs and number parsing are fields of a
--   record, with the laws that the code relies on: a UUID is read back from its text and its hex
--   form, and a digest is not empty.
-- Transaction (meshpay/types/transaction.py, meshpay/types/common.py): the messages and their full
--   and compact layouts. A float is a number of microseconds. A message is stamped where its ids are
--   below 2 ^ 128 and its times are not 0, as its constructor leaves them.
-- Adapter (meshpay/offline/dtn_adapter.py): `DTNAdapter`.
-- Quorum (meshpay/offline/quorum.py): votes and the weighted quorum.
-- Weights, Registry (meshpay/offline/weighted_quorum.py): `_allocate_weights`, and `WeightRegistry`
--   on its file, which is absent or holds a state. The loop of `_allocate_weights` runs on fuel one
--   above the committee's size: each round but the last takes a member out. A registry is in order
--   where its committee is not empty, names nobody twice and has ASCII names, and its epoch size is
--   positive; other names make `_committee_digest` raise. Quotas are exact fractions, where the code
--   computes with floats, and the maximal share is in units of the total.
-- Wallet, Account (meshpay/offline/wallet.py, meshpay/types/state.py): balances.
-- Authority (meshpay/offline/nodes/authority.py): `Authority`, one function per method, on a
--   `World`: the authority and the registry file. A method may raise; what it has written stays
--   written. Ledger is an abstract state, a balance and a last sequence number for every address, and
--   the payments on it.
-- Client (meshpay/offline/nodes/client.py, meshpay/offline/virtual_accounts.py): `Client`, one
--   function per method, on a `Station`: the client and the registry file. Collect and Settle
--   are about the vote that completes a quorum, Settle together with the registry file and the
--   authorities that the certificate reaches.
-- Delivery (meshpay/cli/meshpay_cli.py): the payment path of `MeshPayRuntime`, from a payload that is
--   delivered to its node's answers and where they go.
-- Bundle, Store (dtn/bundle.py, dtn/store.py): bundles, which carry the messages, and the store in
--   memory. Priority has the order of offers as a relation apart from the code's comparison.
-- Spray (dtn/spray_and_wait.py, dtn/epidemic.py): what a node selects for a peer, and copy counts.
-- Prophet (dtn/prophet.py): delivery predictabilities, over floats as an interface: a record of the
--   operations and a record of the laws that numbers from 0 to 1 keep under rounding.
-- Router (dtn/router.py): `DTNRouter`. Attempts has `_should_attempt_exchange`,
--   `_finish_exchange_attempt` and `_reset_peer_backoff`, and the threads of `exchange_with_peer` as a
--   step relation: what runs under the lock is one step, and threads take turns in any order. Policy
--   is the interface of the hooks that a routing policy overrides. Remember is what becomes of a
--   bundle that arrives, in one step: the code holds no lock across the test for a known bundle and
--   its `save`, and threads that take turns between them are not modelled; Wire is a message as a
--   line, over `json`, `zlib` and `base64` as a record of operations; Control answers the requests
--   of the control socket; Discovery has the datagrams and the nonces; Mesh the probes and the
--   schedule of the mesh mode. Exchange is one exchange from its opening summary to its end, for any
--   two policies, with nothing else going on at the two nodes.
-- Examples: test data, tests and examples of the theorems.
--
-- Not modelled: files, and locks but for the router's, since each method runs alone; the store's
-- event list and logs; of the router its sockets, the loops that read the clock and
-- the network, and the command line; and what only drives experiments (mn_wifi,
-- attacks, meshpay/benchmark, the rest of meshpay/cli, examples, scripts).
pub mod Base
pub mod Value
pub mod Runtime
pub mod Transaction
pub mod Adapter
pub mod Quorum
pub mod Registry
pub mod Wallet
pub mod Account
pub mod Authority
pub mod Client
pub mod Delivery
pub mod Bundle
pub mod Store
pub mod Router
pub mod Spray
pub mod Prophet
pub mod Weights
pub mod Examples
