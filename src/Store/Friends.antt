-- ===== src/Store/Friends.antt =====
-- Friend lists: `GetAssociations`, `AddAssociation`, `DeleteAssociation`.
use medge_net.Prelude.{
  Bool, true, false, not, ◌&&◌, List, [], ◌∷◌, ◌++◌, Option, none, some, Bytes, ltb, ◌==◌, equal,
  if◌then◌else◌,
}
use medge_net.Prelude.Int.{ℤ, ◌==ℤ◌}
use medge_net.Env.{Env}
use medge_net.Exec.{ok, Run, gets}
use medge_net.Store.{Persona, Association, Friend, Store, stmt, find, select, is_some}
use medge_net.Store.Personas.{has_id}

-- `a <= b` in SQLite's BINARY collation.
unfoldable pub bytes_leb : Bytes → Bytes → Bool
bytes_leb [] b = true
bytes_leb (x ∷ a) [] = false
bytes_leb (x ∷ a) (y ∷ b) =
    let rest = bytes_leb a b in if ltb x y then true else if x == y then rest else false

insert_by_name : Association → List Association → List Association
insert_by_name a [] = a ∷ []
insert_by_name a (b ∷ rest) =
    let later = insert_by_name a rest in if bytes_leb a.name b.name then a ∷ b ∷ rest else b ∷ later

-- ORDER BY p.name
unfoldable pub order_by_name : List Association → List Association
unfolding insert_by_name
order_by_name [] = []
order_by_name (a ∷ rest) = insert_by_name a (order_by_name rest)

cons_found : Friend → Option Persona → List Association → List Association
cons_found f none rest = rest
cons_found f (some p) rest = record { id = f.friend_persona_id; name = p.name } ∷ rest

-- JOIN personas p ON p.id = f.friend_persona_id
unfoldable pub join_names : List Persona → List Friend → List Association
unfolding cons_found
join_names personas [] = []
join_names personas (f ∷ fs) =
    cons_found f (find (has_id f.friend_persona_id) personas) (join_names personas fs)

abbrev pub in_list : ℤ → Bytes → Friend → Bool
in_list persona_id typ f = f.persona_id ==ℤ persona_id && equal f.typ typ

abbrev pub is_row : ℤ → ℤ → Bytes → Friend → Bool
is_row persona_id friend_id typ f =
    f.persona_id ==ℤ persona_id && f.friend_persona_id ==ℤ friend_id && equal f.typ typ

-- INSERT OR IGNORE INTO friends; whether a row was inserted.
unfoldable pub insert_friend : ℤ → ℤ → Bytes → Run Store Bool
insert_friend persona_id friend_id typ s =
    if is_some (find (is_row persona_id friend_id typ) s.friends) then (ok false, s) else (
      ok true,
      record s {
        friends =
            s.friends
            ++ (record { persona_id = persona_id; friend_persona_id = friend_id; typ = typ }) ∷ [];
      },
    )

unfoldable pub delete_friend : ℤ → ℤ → Bytes → Run Store (Unit {0})
delete_friend persona_id friend_id typ s =
    (ok tt, record s { friends = select (λ f. not (is_row persona_id friend_id typ f)) s.friends })

module _ (env : Env) where
  unfoldable pub get_associations : ℤ → Bytes → Run Store (List Association)
  get_associations persona_id typ = stmt env (
      gets (λ s. order_by_name (join_names s.personas (select (in_list persona_id typ) s.friends))))

  unfoldable pub add_association : ℤ → ℤ → Bytes → Run Store Bool
  add_association persona_id friend_id typ = stmt env (insert_friend persona_id friend_id typ)

  unfoldable pub delete_association : ℤ → ℤ → Bytes → Run Store (Unit {0})
  delete_association persona_id friend_id typ = stmt env (delete_friend persona_id friend_id typ)
