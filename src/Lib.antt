-- ===== src/Lib.antt =====
-- A model of ark-escrow, a non-custodial escrow on Liquid that is paid over Lightning, and what can
-- be proved of it.
--
-- The program. A seller makes a deal and a buyer joins it with a secret's hash (pkg/escrow/deal.go);
-- the two keys, the oracle's key, the hash and a timeout are the parameters of a taproot output with
-- four leaves (pkg/escrow/escrow.go, pkg/escrow/elements.go, internal/script). The buyer's Lightning
-- payment is swapped into that output through an HTLC on Liquid (pkg/escrow/swap/fund.go,
-- pkg/escrow/swap/liquid_htlc.go). The output is claimed through one of the leaves
-- (pkg/escrow/swap/escrow_claim.go) and paid out over Lightning (pkg/escrow/swap/payout.go). Deals are
-- kept in files (pkg/escrow/store.go); a recovery kit (pkg/escrow/recovery.go) lets a party claim
-- without the service. cmd/escrow joins the parts to a command line.
--
-- The files.
--   Base         shared names: Boolean tests, lists by native numbers, results, byte strings
--   Bits, Hex    laws of xor, masks and digit streams; encoding/hex
--   Bech32       pkg/escrow/bech32.go: Convert is ConvertBits, Polymod bech32mPolymod, Runes Go's
--                range over a string, Address the encoder, the decoder and AddressToOutputScript
--   Curve        btcec and schnorr as a parameter
--   Deal         pkg/escrow/deal.go: the record and its methods, each from the old record to the new
--                one and its error; Lifecycle, Tally and Fields are about sequences of calls,
--                Diagram about PROTOCOL.md's diagram and the three edges it does not draw
--   Params       EscrowParams and decodePubKey of pkg/escrow/deal.go
--   Script       internal/script: Txscript is the script library as a parameter, Interpreter the
--                network's interpreter as a parameter, Locktime locktime.go, Closure closure.go,
--                Closure.Decode its decoders and DecodeClosure, Condition EvaluateScriptToBool
--   Escrow       pkg/escrow/escrow.go; Elements is pkg/escrow/elements.go
--   Recovery     pkg/escrow/recovery.go
--   Store        pkg/escrow/store.go over a directory as state; Faults is what a failed save leaves
--   Swap         pkg/escrow/swap: Witness and Pset are tx.go, Claim escrow_claim.go, Htlc
--                liquid_htlc.go, Fund fund.go, Payout payout.go, Services the node and LND, and
--                Claim.Broadcast ClaimEscrow as a call of the node
--   Swap.Clients rpc.go and htlc.go (Elementsd, Amount) and lnd.go (Lnd, Stream, Paying) over net/http
--                and JSON, and cln.go (Cln); Implementation is the record Services that the first
--                two implement
--   Command      cmd/escrow/commands.go: joinAction and shipAction, and in Creating createAction, in
--                Funding fundAction, in Settle releaseAction, refundAction and disputeAction, in
--                Recovering recoverykitAction and recoverAction; World is the state that they work on,
--                Program is main.go with the ten commands, and Program.Reach sequences of them
--   Tests        small concrete libraries, and the theorems applied to them
--
-- How it is modelled. A byte string is a list of numbers; uint32 and uint64 keep their wrap-around
-- where the code can reach it. A Go error is a value of a data type per file, a nil pointer or slice
-- an Option, a panic an error of its own. The clock and the random source are arguments. Code that is
-- not part of the repository is a record of functions with a record of laws: Curve, Txscript,
-- Interpreter, Engine, Taproot, Psetv2, the JSON and base58 codecs. HTTP is a function from requests
-- to answers, and JsonText the text of JSON values. The laws state documented behaviour, and
-- Tests has an instance of each that satisfies them. The node and LND are a record of
-- answers that depend on the log of all calls so far, and a computation passes that log on. A command
-- works on a World: the directory of the deals, and that log. It is a sequence of effects in the
-- code's order, and keeps those it had when it fails. A write of a file that fails may have been refused,
-- or have cut the file off.
--
-- How the parts interact. Services has what Swap.Fund, Swap.Payout, Swap.Htlc and Swap.Claim.Broadcast
-- ask of the node and LND, and Swap.Clients.Implementation fills it. The commands use them, the methods
-- of Deal, and load and save of Store; the theorems on the commands follow from those on their parts.
--
-- Fuel. The inner loop of ConvertBits takes at least one bit in each round, so it gets as much fuel as
-- there are bits. The polling loop of WaitForPaymentClaimAndSettle has no bound in the code: it runs on
-- any fuel, and once the invoice is accepted after k polls any fuel above k is enough. The command fund
-- passes its fuel on to that loop. The decimal text of a uint64 has at most 20 digits.
-- The loops over the tokens of a script run on its length, since a token takes a byte at least.
--
-- Not modelled: GetBalance of pkg/escrow/swap/htlc.go, which decodes floating-point numbers, and the
-- end-to-end test driver cmd/escrow-test, which alone uses it and talks to live nodes; what
-- the commands print; JSON objects with one key twice, where a struct merges the two; TLS, timeouts and
-- headers of HTTP other than the authorization.
pub mod Base
pub mod Bits
pub mod Hex
pub mod Bech32
pub mod Curve
pub mod Script
pub mod Deal
pub mod Escrow
pub mod Params
pub mod Recovery
pub mod Store
pub mod Swap
pub mod Command
pub mod Tests
