-- ===== src/Command/Funding/Outcomes.antt =====
-- How `fundAction` of cmd/escrow/commands.go can end.
use ark_escrow.Base.{
  ℕ, Str, Bool, false, true, Option, some, none, ◌∷◌, Result, ok, wrap_err, ◌≡◌, refl, arith, inl,
  inr, ◌∙◌, is_empty, Result-cases, Option-cases, Bool-cases,
}
use ark_escrow.Curve.{Curve}
use ark_escrow.Script.Txscript.{Txscript}
use ark_escrow.Escrow.Elements.{Taproot}
use ark_escrow.Deal.{Deal, joined, funded}
use ark_escrow.Deal
use ark_escrow.Store.{DealJson, save, left_after}
use ark_escrow.Swap.Pset.{Network, Psetv2}
use ark_escrow.Swap.Fund.Settling
use ark_escrow.Command.{
  not_joined, invalid_node_url, key_failed, fund_failed, swap_failed, changed, opened_deal,
}
use ark_escrow.Command.World.{World, Env, go_on}
use ark_escrow.Command.Funding.{finish, swap_and_finish, fund_action, fund_config}
use ark_escrow.Swap.Services.{
  Services, Log, send_raw_transaction, lookup_invoice, get_raw_transaction,
}
use ark_escrow.Swap.Htlc.Funding.{find_vout_by_address, vout_of}
use ark_escrow.Swap.Fund.{fund, FundResult, FundError}
use ark_escrow.Swap.Fund.Settling.{settlements}
use ark_escrow.Swap.Fund.Locking.{settlements-fund}
use ark_escrow.Command.Funding.Ends.{
  swap_log, as_funded, Swapped, Outcome, unsettled, unsaved, saved,
}
use ark_escrow.Store.Faults.{untouched, save-LeftBy}

module _ (services : Services) (json : DealJson) (c : Curve) (tx : Txscript)
    (taproot : Taproot c.PublicKey) (lib : Psetv2 c) (regtest : Network) where
  module _ (sha256 : Str → Str) (drawn : Option c.PrivateKey) (random : Option Str) (env : Env)
      (now : ℕ) (id : Str) (w : World) where
    fund-made :
        (deal funded_deal : Deal) (tx_id : Str) (vout : ℕ)
        → changed (Deal.fund now tx_id vout deal) ≡ ok funded_deal
        → (deal.state ≡ joined) × (funded_deal ≡ as_funded now tx_id vout deal)
    unfolding Deal.fund
    fund-made deal funded_deal tx_id vout h = ground arith

    -- After the swap.
    finish-Outcome :
        (deal : Deal) (result : FundResult c.PublicKey) (earlier : Log) (tx_hex tx_id : Str)
        → Swapped services json c tx taproot lib regtest sha256 drawn random env now id w deal
            result earlier tx_hex tx_id
        → services.settles
            (send_raw_transaction tx_hex ∷ lookup_invoice result.payment_hash ∷ earlier)
            result.preimage
          ≡ some tt
        → Outcome services json c tx taproot lib regtest sha256 drawn random env now id w (
            finish services json now deal tx_id (record w {
              log = swap_log services json c tx taproot lib regtest result tx_hex earlier;
            }))
    unfolding finish find_vout_by_address
    finish-Outcome deal result earlier tx_hex tx_id swapped settles =
        let log = swap_log services json c tx taproot lib regtest result tx_hex earlier in
        let later = get_raw_transaction tx_id ∷ log in
        elim (Option-cases (services.raw_transaction log tx_id)) [
          | inl h ↦ rw h (
              unsaved _ deal result earlier later tx_hex tx_id 0 w.disk swapped (inr refl)
                untouched)
          | inr (vouts, h) ↦ elim (Option-cases (vout_of deal.escrow_address vouts)) [
            | inl h' ↦
                rw (h, h')
                  (unsaved _ deal result earlier later tx_hex tx_id 0 w.disk swapped (inr refl)
                    untouched)
            | inr (vout, h') ↦ elim (Result-cases (changed (Deal.fund now tx_id vout deal))) [
              | inr (e, h'') ↦
                  rw (h, h', h'')
                    (unsaved _ deal result earlier later tx_hex tx_id 0 w.disk swapped (inr refl)
                      untouched)
              | inl (funded_deal, h'') ↦ elim (Result-cases (save json funded_deal w.disk)) [
                | inr (e, h3) ↦
                    let made = fund-made deal funded_deal tx_id vout h'' in
                    rw (h, h', h'', h3)
                      (unsaved _ deal result earlier later tx_hex tx_id vout (left_after e w.disk)
                        swapped (inr refl)
                        (save-LeftBy json (as_funded now tx_id vout deal) w.disk e
                          (rw (← made.1) h3)))
                | inl (disk, h3) ↦
                    let made = fund-made deal funded_deal tx_id vout h'' in
                    rw (h, h', h'', h3)
                      (saved deal result earlier tx_hex tx_id vouts vout disk swapped settles h h'
                        made.0 (rw (← made.1) h3))
              ]
            ]
          ]
        ]

    -- After the loop, however it ended.
    looped-Outcome :
        (deal : Deal) (key : c.PrivateKey) (result : FundResult c.PublicKey) (log : Log)
        (r : Result FundError Str × Log)
        → opened_deal json env id w.disk ≡ ok deal
        → drawn ≡ some key
        → (fund c tx taproot services sha256 random (fund_config c deal key) w.log).0 ≡ ok result
        → is_empty deal.escrow_address ≡ false
        → settlements log ≡ settlements w.log
        → Settling.Outcome c tx taproot services lib regtest result
            (some key)
            deal.escrow_address
            deal.amount
            none
            log
            r
        → Outcome services json c tx taproot lib regtest sha256 drawn random env now id w (
            go_on
              (wrap_err swap_failed r.0, record w { log = r.1 })
              (finish services json now deal))
    looped-Outcome deal key result log r loaded drew locked addressed same
          (Settling.not_settled e log' same') =
        unsettled _ log' (same' ∙ same)
    looped-Outcome deal key result log r loaded drew locked addressed same
          (Settling.settled_after_claim r' tx_id tx_hex earlier same' is_accepted makes takes
            (inr failed)) =
        rw failed (
          unsaved _ deal result earlier _ tx_hex tx_id 0 w.disk
            (record {
              loaded = loaded;
              has_address = addressed;
              key = key;
              drew = drew;
              locked = locked;
              makes = makes;
              is_accepted = is_accepted;
              takes = takes;
              no_settlements = same' ∙ same;
            })
            (inl refl) untouched)
    looped-Outcome deal key result log r loaded drew locked addressed same
          (Settling.settled_after_claim r' tx_id tx_hex earlier same' is_accepted makes takes
            (inl (done, settles))) =
        rw done (
          finish-Outcome deal result earlier tx_hex tx_id
            (record {
              loaded = loaded;
              has_address = addressed;
              key = key;
              drew = drew;
              locked = locked;
              makes = makes;
              is_accepted = is_accepted;
              takes = takes;
              no_settlements = same' ∙ same;
            })
            settles)

    swap_and_finish-Outcome :
        (done : Log → Bool) (fuel : ℕ) (deal : Deal) (key : c.PrivateKey)
        (result : FundResult c.PublicKey) (log : Log)
        → opened_deal json env id w.disk ≡ ok deal
        → drawn ≡ some key
        → (fund c tx taproot services sha256 random (fund_config c deal key) w.log).0 ≡ ok result
        → is_empty deal.escrow_address ≡ false
        → settlements log ≡ settlements w.log
        → Outcome services json c tx taproot lib regtest sha256 drawn random env now id w (
            swap_and_finish services json c tx taproot lib regtest now done fuel deal key result
              (record w { log = log }))
    unfolding swap_and_finish
    swap_and_finish-Outcome done fuel deal key result log loaded drew locked addressed same =
        looped-Outcome deal key result log _ loaded drew locked addressed same (
          Settling.wait_for_payment_claim_and_settle-Outcome c tx taproot services lib regtest
            result (some key) deal.escrow_address deal.amount none done fuel log)

    -- From the lock of the HTLC on.
    locked-Outcome :
        (done : Log → Bool) (fuel : ℕ) (deal : Deal) (key : c.PrivateKey)
        → opened_deal json env id w.disk ≡ ok deal
        → drawn ≡ some key
        → is_empty deal.escrow_address ≡ false
        → let locked = fund c tx taproot services sha256 random (fund_config c deal key) w.log in
          Outcome services json c tx taproot lib regtest sha256 drawn random env now id w (
            go_on
              (wrap_err fund_failed locked.0, record w { log = locked.1 })
              (swap_and_finish services json c tx taproot lib regtest now done fuel deal key))
    locked-Outcome done fuel deal key loaded drew addressed =
        let locked = fund c tx taproot services sha256 random (fund_config c deal key) w.log in
        let quiet =
          settlements-fund c tx taproot services sha256 random (fund_config c deal key) w.log in
        elim (Result-cases locked.0) [
          | inr (e, h) ↦ simp h (unsettled _ locked.1 quiet)
          | inl (result, h) ↦ simp h (
              swap_and_finish-Outcome done fuel deal key result locked.1 loaded drew h addressed
                quiet)
        ]

    -- From the draw of the key on.
    drawn-Outcome :
        (done : Log → Bool) (fuel : ℕ) (deal : Deal) (k : Option c.PrivateKey)
        → drawn ≡ k
        → opened_deal json env id w.disk ≡ ok deal
        → is_empty deal.escrow_address ≡ false
        → env.node_url_parses ≡ true
        → Outcome services json c tx taproot lib regtest sha256 drawn random env now id w (
            fund_action services json c tx taproot lib regtest sha256 k random done fuel env now id
              w)
    unfolding fund_action
    drawn-Outcome done fuel deal none drew h h' h'' =
        simp (h, h', h'') (unsettled key_failed w.log refl)
    drawn-Outcome done fuel deal (some key) drew h h' h'' =
        simp (h, h', h'') (locked-Outcome done fuel deal key h drew h')

    -- Every run of `fundAction` ends in one of three ways. There is an error, no invoice was settled and
    -- the directory is as before. Or a deal with an address was loaded, the HTLC that was locked for it had its
    -- invoice accepted, the node took the transaction that spends that HTLC through leaf 0 to the deal's address,
    -- the one settlement was sent right after, and there is an error; the directory is as before, but
    -- that a failed save may have cut off the deal's own file. Or, after such a claim and settlement, the deal,
    -- which was joined, is saved as funded with the claim's id and the first output to its escrow address.
    pub fund_action-Outcome :
        (done : Log → Bool) (fuel : ℕ)
        → Outcome services json c tx taproot lib regtest sha256 drawn random env now id w (
            fund_action services json c tx taproot lib regtest sha256 drawn random done fuel env now
              id w)
    unfolding fund_action
    fund_action-Outcome done fuel = elim (Result-cases (opened_deal json env id w.disk)) [
      | inr (e, h) ↦ simp h (unsettled e w.log refl)
      | inl (deal, h) ↦ elim (Bool-cases (is_empty deal.escrow_address)) [
        | inl h' ↦ simp (h, h') (unsettled not_joined w.log refl)
        | inr h' ↦ elim (Bool-cases env.node_url_parses) [
          | inr h'' ↦ simp (h, h', h'') (unsettled invalid_node_url w.log refl)
          | inl h'' ↦ drawn-Outcome done fuel deal drawn refl h h' h''
        ]
      ]
    ]
