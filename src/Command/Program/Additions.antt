-- ===== src/Command/Program/Additions.antt =====
-- The commands create and join as changes of the directory of the deals.
use ark_escrow.Base.{
  IsBytes, IsAscii, true, false, ℕ, ◌%◌, ◌^◌, [], is_empty, Str, Bool, Option, some, none, Result,
  ok, err, ◌≡◌, refl, subst, arith, ◌⊎◌, inl, inr, Result-cases, Bool-cases, if◌then◌else◌,
}
use ark_escrow.Hex
use ark_escrow.Hex.{encode_to_string-IsAscii}
use ark_escrow.Curve.{Curve}
use ark_escrow.Script.Txscript.{Txscript}
use ark_escrow.Deal.{Deal, JoinToken, new_deal, generate_deal_id, created, join}
use ark_escrow.Escrow.Elements.{Taproot}
use ark_escrow.Store.{DealJson, StoreError, load, save, left_after}
use ark_escrow.Store.Files.{Disk}
use ark_escrow.Swap.Pset.{Network, Psetv2}
use ark_escrow.Swap.Services.{Services}
use ark_escrow.Command.{CommandError, join_action, join_deal, local_deal, left_by}
use ark_escrow.Escrow.{generate_secret}
use ark_escrow.Store.Faults.{save-LeftBy}
use ark_escrow.Command.World.{World, Env, written}
use ark_escrow.Command.Creating.{CreateFlags, create_action}
use ark_escrow.Command.Joining.{Joins, join_action-Joined}
use ark_escrow.Command.Program.{CommandLine, create_command, join_command}
use ark_escrow.Command.Program.Changes.{Change, Change-eq, unchanged, left, added, moved}

module _ (services : Services) (json : DealJson) (c : Curve) (tx : Txscript)
    (taproot : Taproot c.PublicKey) (lib : Psetv2 c) (regtest : Network) where
  abbrev new_deal_of : ℕ → c.PrivateKey → Str → CreateFlags → Deal
  new_deal_of now key b flags = record {
    id = Hex.encode_to_string b;
    state = created;
    title = flags.title;
    amount = flags.amount;
    created_at = now;
    updated_at = now;
    seller_pub_key = Hex.encode_to_string (c.serialize (c.pub_key key));
    buyer_pub_key = [];
    oracle_pub_key = flags.oracle_pub_key;
    secret_hash = [];
    timeout_blocks = flags.timeout % 2 ^ 32;
    escrow_address = [];
    fund_tx_id = [];
    fund_vout = 0;
    claim_tx_id = [];
    seller_priv_key = Hex.encode_to_string (c.serialize_priv key);
    buyer_priv_key = [];
    secret = [];
  }

  created-Change :
      (env : Env) (now : ℕ) (key : c.PrivateKey) (b : Str) (flags : CreateFlags) (w : World)
      (e : StoreError)
      → load json (Hex.encode_to_string b) w.disk ≡ err e
      → IsBytes b
      → Change json w.disk (create_action json c env now (some key) (some b) flags w).1.disk
  unfolding create_action new_deal generate_deal_id
  created-Change env now key b flags w e fresh bytes = elim (Bool-cases env.directory_made) [
    | inr h ↦ simp h unchanged
    | inl h ↦ elim (Bool-cases (is_empty flags.oracle_pub_key)) [
      | inl h' ↦ simp (h, h') unchanged
      | inr h' ↦
          let deal = new_deal_of now key b flags in
          elim (Result-cases (save json deal w.disk)) [
            | inr (e', h'') ↦
                simp (h, h', h'')
                  (left deal (left_after e' w.disk) (save-LeftBy json deal w.disk e' h''))
            | inl (disk, h'') ↦
                simp (h, h', h'')
                  (added deal e disk fresh (encode_to_string-IsAscii b bytes) refl h'')
          ]
    ]
  ]

  -- What a create command draws are bytes, and not the id of a deal that loads; the id of a join command's
  -- token is in ASCII.
  abbrev pub Fresh : CommandLine c.PrivateKey → Disk → Type 0
  Fresh (create_command _ (some b) _) disk =
      IsBytes b × (e : StoreError) × (load json (Hex.encode_to_string b) disk ≡ err e)
  Fresh (join_command (some token) _ _) disk = IsAscii token.deal_id
  Fresh _ disk = Unit {0}

  undrawn-Change :
      (env : Env) (now : ℕ) (drawn : Option c.PrivateKey) (random : Option Str)
      (flags : CreateFlags) (w : World)
      → (drawn ≡ none) ⊎ (random ≡ none)
      → Change json w.disk (create_action json c env now drawn random flags w).1.disk
  undrawn-Change env now drawn random flags w h =
      let same : (create_action json c env now drawn random flags w).1.disk ≡ w.disk =
        unfold create_action new_deal generate_deal_id in ground arith in
      rw same unchanged

  pub create-Change :
      (env : Env) (now : ℕ) (drawn : Option c.PrivateKey) (random : Option Str)
      (flags : CreateFlags) (w : World)
      → Fresh (create_command drawn random flags) w.disk
      → Change json w.disk (create_action json c env now drawn random flags w).1.disk
  create-Change env now (some key) (some b) flags w (bytes, e, fresh) =
      created-Change env now key b flags w e fresh bytes
  create-Change env now none random flags w fresh =
      undrawn-Change env now none random flags w (inl refl)
  create-Change env now (some key) none flags w fresh =
      undrawn-Change env now (some key) none flags w (inr refl)

  joined-Change :
      (sha256 : Str → Str) (now : ℕ) (token : JoinToken) (drawn : Option c.PrivateKey)
      (random : Option Str) (hrp : Str) (disk disk' : Disk)
      → join_action json c tx taproot sha256 now now (some token) drawn random hrp (some disk)
        ≡ ok disk'
      → IsAscii token.deal_id
      → Change json disk disk'
  joined-Change sha256 now token drawn random hrp disk disk' done ascii =
      let j =
        join_action-Joined json c tx taproot sha256 now now token drawn random hrp disk disk'
          done in
      elim (Result-cases (load json token.deal_id disk)) [
        | inl (deal, h) ↦
            let joins =
              subst
                (λ (r : Result StoreError Deal).
                  Joins json c tx taproot hrp (local_deal now token r) j.deal)
                h j.joins in
            moved token.deal_id deal j.deal disk' h joins.same_id
              (rw (joins.was_created, joins.now_joined) refl) j.saves
        | inr (e, h) ↦
            let joins =
              subst
                (λ (r : Result StoreError Deal).
                  Joins json c tx taproot hrp (local_deal now token r) j.deal)
                h j.joins in
            added j.deal e disk' (rw joins.same_id h) (rw joins.same_id ascii)
              (rw joins.now_joined refl) j.saves
      ]

  join_deal-left :
      (now : ℕ) (key : c.PrivateKey) (secret secret_hash hrp : Str) (deal : Deal) (disk : Disk)
      (e : CommandError)
      → join_deal c tx taproot now key secret secret_hash hrp deal ≡ err e
      → left_by e disk ≡ disk
  unfolding join_deal join
  join_deal-left now key secret secret_hash hrp deal disk e failed = ground arith

  -- From the draws on, where the deal that is joined cannot be saved or is not made.
  unjoined-Change :
      (sha256 : Str → Str) (now : ℕ) (token : JoinToken) (key : c.PrivateKey) (secret hrp : Str)
      (disk : Disk) (e : CommandError)
      → join_action json c tx taproot sha256 now now
          (some token)
          (some key)
          (some secret)
          hrp
          (some disk)
        ≡ err e
      → Change json disk (left_by e disk)
  unfolding join_action generate_secret
  unjoined-Change sha256 now token key secret hrp disk e failed =
      let deal = local_deal now token (load json token.deal_id disk) in
      elim (Result-cases (join_deal c tx taproot now key secret (sha256 secret) hrp deal)) [
        | inr (e', h) ↦
            let same : e' ≡ e = ground arith in
            Change-eq json disk _ (
              subst (λ (x : CommandError). left_by x disk ≡ disk) same
                (join_deal-left now key secret (sha256 secret) hrp deal disk e' h))
        | inl (deal', h) ↦ elim (Result-cases (save json deal' disk)) [
          | inl (disk', h') ↦ ground arith
          | inr (e', h') ↦
              let same : left_after e' disk ≡ left_by e disk = ground arith in
              subst (λ (d : Disk). Change json disk d) same
                (left deal' (left_after e' disk) (save-LeftBy json deal' disk e' h'))
        ]
      ]

  failed-Change :
      (sha256 : Str → Str) (now : ℕ) (token : Option JoinToken) (drawn : Option c.PrivateKey)
      (random : Option Str) (hrp : Str) (opened : Option Disk) (disk : Disk) (e : CommandError)
      → (opened ≡ none) ⊎ (opened ≡ some disk)
      → join_action json c tx taproot sha256 now now token drawn random hrp opened ≡ err e
      → Change json disk (left_by e disk)
  unfolding join_action generate_secret
  failed-Change sha256 now token drawn random hrp none disk e o failed =
      Change-eq json disk _ (ground arith)
  failed-Change sha256 now none drawn random hrp (some d) disk e o failed =
      Change-eq json disk _ (ground arith)
  failed-Change sha256 now (some token) none random hrp (some d) disk e o failed =
      Change-eq json disk _ (ground arith)
  failed-Change sha256 now (some token) (some key) none hrp (some d) disk e o failed =
      Change-eq json disk _ (ground arith)
  failed-Change sha256 now (some token) (some key) (some secret) hrp (some d) disk e (inl o)
        failed =
      ground arith
  failed-Change sha256 now (some token) (some key) (some secret) hrp (some d) disk e (inr o)
        failed =
      let same : d ≡ disk = ground arith in
      subst (λ (x : Disk). Change json x (left_by e x)) same
        (unjoined-Change sha256 now token key secret hrp d e failed)

  opened-cases :
      (b : Bool) (disk : Disk)
      → ((if b then some disk else none) ≡ none) ⊎ ((if b then some disk else none) ≡ some disk)
  opened-cases true disk = inr refl
  opened-cases false disk = inl refl

  -- The id of a token, if there is one, is in ASCII.
  abbrev pub NamesAscii : Option JoinToken → Type 0
  NamesAscii none = Unit {0}
  NamesAscii (some token) = IsAscii token.deal_id

  pub join-Change :
      (sha256 : Str → Str) (env : Env) (now : ℕ) (token : Option JoinToken)
      (drawn : Option c.PrivateKey) (random : Option Str) (hrp : Str) (w : World)
      (r : Result CommandError Disk)
      → join_action json c tx taproot sha256 now now token drawn random hrp
          (if env.directory_made then some w.disk else none)
        ≡ r
      → NamesAscii token
      → Change json w.disk (written left_by r w).1.disk
  join-Change sha256 env now token drawn random hrp w (err e) done ascii =
      failed-Change sha256 now token drawn random hrp _ w.disk e
        (opened-cases env.directory_made w.disk) done
  join-Change sha256 env now none drawn random hrp w (ok disk) done ascii =
      unfold join_action in ground arith
  join-Change sha256 env now (some token) drawn random hrp w (ok disk) done ascii =
      elim (Bool-cases env.directory_made) [
        | inl h ↦
            joined-Change sha256 now token drawn random hrp w.disk disk
              (subst
                (λ (b : Bool).
                  join_action json c tx taproot sha256 now now (some token) drawn random hrp
                    (if b then some w.disk else none)
                  ≡ ok disk)
                h done)
              ascii
        | inr h ↦ unfold join_action in ground arith
      ]
