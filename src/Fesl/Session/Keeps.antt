-- ===== src/Fesl/Session/Keeps.antt =====
-- Rules for handlers: what the store's statements keep, the world keeps.
use medge_net.Exec.{Run}
use medge_net.Exec.Keeps.{Keeps, keeps_rules, Keeps-pure, Keeps-bind}
use medge_net.Store.{Store}
use medge_net.Fesl.Session.{Session, World, on_store, set_session, current}

-- A property of the database, as one of the world.
abbrev pub OfStore {κ} : (Store → Type κ) → World → Type κ
OfStore P w = P w.store

module _ {κ} {P : Store → Type κ} where
  pub Keeps-on_store {ℓ} :
      {A : Type ℓ} (m : Run Store A) → Keeps P m → Keeps (OfStore P) (on_store m)
  unfolding on_store
  Keeps-on_store m h = record { at = λ w. h.at w.store }

module _ {κ} (P : Store → Type κ) where
  pub Keeps-set_session : (s : Session) → Keeps (OfStore P) (set_session s)
  unfolding set_session
  Keeps-set_session s = record { at = λ w h. h }

  pub Keeps-current : Keeps (OfStore P) current
  unfolding current
  Keeps-current = record { at = λ w h. h }

pub ruleset store_rules = (keeps_rules, Keeps-on_store, Keeps-set_session, Keeps-current)
