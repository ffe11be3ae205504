-- ===== src/Fesl/Login/Persona.antt =====
-- server/fesl/server.go: what a login does to the persona that is logged in.
use medge_net.Prelude.{◌≡◌, refl, Option, none, some, Bytes}
use medge_net.Prelude.Int.{ℤ}
use medge_net.Env.{Env}
use medge_net.Exec.{Run, ◌>>=◌}
use medge_net.Exec.Keeps.{Keeps, keeps_rules}
use medge_net.Packet.{Packet}
use medge_net.Store.{Account, Store, draw}
use medge_net.Fesl.Login.{login_response, by_token, by_password, handle_nu_login}
use medge_net.Fesl.Session.{World, on_store, set_session, current, random_hex}

-- The session's persona is `me`, of the name `name`.
abbrev Plays : ℤ → Bytes → World → Type 0
Plays me name w = (w.session.persona_id ≡ me) × (w.session.persona_name ≡ name)

module _ (env : Env) (me : ℤ) (name : Bytes) where
  login_response_lem :
      (pkt : Packet) (a : Account) (info : Bytes)
      → Keeps (Plays me name) (login_response env pkt a info)
  unfolding login_response ◌>>=◌ on_store set_session current random_hex draw
  login_response_lem pkt a info = record { at = λ w h. h }

  on_store_lem {ℓ} : {A : Type ℓ} (m : Run Store A) → Keeps (Plays me name) (on_store m)
  unfolding on_store
  on_store_lem m = record { at = λ w h. h }

  by_token_lem :
      (pkt : Packet) (found : Option Account) → Keeps (Plays me name) (by_token env pkt found)
  unfolding by_token
  by_token_lem pkt none = search keeps_rules
  by_token_lem pkt (some a) = login_response_lem pkt a _

  by_password_lem :
      (pkt : Packet) (found : Option Account) → Keeps (Plays me name) (by_password env pkt found)
  unfolding by_password
  by_password_lem pkt none = search keeps_rules
  by_password_lem pkt (some a) = search (keeps_rules, on_store_lem, login_response_lem)

  handle_nu_login_lem : (pkt : Packet) → Keeps (Plays me name) (handle_nu_login env pkt)
  unfolding handle_nu_login
  handle_nu_login_lem pkt = search (keeps_rules, on_store_lem, by_token_lem, by_password_lem)

-- NuLogin leaves the persona of the session as it is, whichever account logs in, by password or by
-- token, and whether it succeeds or not.
pub handle_nu_login_persona-unchanged :
    (env : Env) (pkt : Packet) (w : World)
    → ((handle_nu_login env pkt w).1.session.persona_id ≡ w.session.persona_id)
      × ((handle_nu_login env pkt w).1.session.persona_name ≡ w.session.persona_name)
handle_nu_login_persona-unchanged env pkt w =
    (handle_nu_login_lem env w.session.persona_id w.session.persona_name pkt).at w (refl, refl)
