-- ===== src/Command/World.antt =====
-- What an action of cmd/escrow/commands.go works on: the directory of the deals, and the node and LND
-- through the log of the calls made to them. An action that fails keeps what it has done.
use ark_escrow.Base.{Bool, Result, ok, err, wrap_err}
use ark_escrow.Store.Files.{Disk}
use ark_escrow.Swap.Services.{Log, Calls}

pub record World : Type 0 where
  pub disk : Disk
  pub log : Log

-- Whether os.MkdirAll makes the data directory, and whether url.Parse reads the node's address.
pub record Env : Type 0 where
  pub directory_made : Bool
  pub node_url_parses : Bool

abbrev pub Action : Type 0 → Type 0 → Type 0
Action E A = World → Result E A × World

infixl 5 ◌>>=◌ ◌>>◌
abbrev pub go_on : {E A B : Type 0} → Result E A × World → (A → Action E B) → Result E B × World
go_on (ok a, w) f = f a w
go_on (err e, w) f = (err e, w)

abbrev pub ◌>>=◌ : {E A B : Type 0} → Action E A → (A → Action E B) → Action E B
m >>= f = λ w. go_on (m w) f

abbrev pub ◌>>◌ : {E A B : Type 0} → Action E A → Action E B → Action E B
m >> k = m >>= λ _. k

-- A call without effect that may fail.
abbrev pub try : {E A : Type 0} → Result E A → Action E A
try r = λ w. (r, w)

-- Calls of the services, with their error wrapped.
abbrev pub serve : {E F A : Type 0} → (E → F) → Calls E A → Action F A
serve f m = λ w. (wrap_err f (m w.log).0, record w { log = (m w.log).1 })

-- What reads the directory, and what writes it.
abbrev pub reads : {E A : Type 0} → (Disk → Result E A) → Action E A
reads f = λ w. (f w.disk, w)

-- With an error the directory is as the failure left it.
abbrev pub written :
    {E : Type 0} → (E → Disk → Disk) → Result E Disk → World → Result E (Unit {0}) × World
written left (ok disk) w = (ok tt, record w { disk = disk })
written left (err e) w = (err e, record w { disk = left e w.disk })

abbrev pub writes : {E : Type 0} → (E → Disk → Disk) → (Disk → Result E Disk) → Action E (Unit {0})
writes left f = λ w. written left (f w.disk) w

-- The value is only printed.
abbrev pub skip : {E A : Type 0} → A → Action E (Unit {0})
skip a = try (ok tt)
