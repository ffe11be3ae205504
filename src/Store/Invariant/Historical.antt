-- ===== src/Store/Invariant/Historical.antt =====
-- The functions on historical players keep the unique columns unique.
use medge_net.Prelude.{
  ◌≡◌, ◌≢◌, Bool, true, false, not, List, [], ◌∷◌, Option, none, some, Bytes, All, equal_iff, inl,
  inr, Bool-cases, Option-cases, arith,
}
use medge_net.Prelude.Int.{ℤ}
use medge_net.Env.{Env}
use medge_net.Exec.{Run}
use medge_net.Exec.Keeps.{Keeps, keeps_rules}
use medge_net.Store.Invariant.Agree.{keys_differ}
use medge_net.Float.{is_nan}
use medge_net.Store.{Persona, PlayerRow, RunRow, LinkRow, Store, stmt, find, select}
use medge_net.Store.Calls
use medge_net.Store.Historical.{
  insert_player, put_run, replace_run, set_link, delete_link, add_historical_run, link_player,
  link_persona, link_historical_account, unlink_historical_account, has_source_key, is_run,
}
use medge_net.Store.Invariant.{IsValid, StatTables, run_key}
use medge_net.Store.Invariant.Statements.{IsValid-Kept}
use medge_net.Store.Keys.{Distinct-put, Distinct-snoc, Distinct-select, find-eq-none, next_id_fresh}
use medge_net.Store.Rules.{Keeps-stmt}
use medge_net.Store.Stats.Scope.{has_source}

IsValid-tables :
    (s : Store) (players : List PlayerRow) (runs : List RunRow) (links : List LinkRow)
    → IsValid s
    → StatTables s.stats players runs links
    → IsValid (record s {
      historical_players = players;
      historical_runs = runs;
      historical_account_links = links;
    })
IsValid-tables s players runs links v t = record {
  account_ids = v.account_ids;
  nuids = v.nuids;
  persona_ids = v.persona_ids;
  names = v.names;
  hashes = v.hashes;
  links = v.links;
  tables = t;
}

insert_player_lem :
    (env : Env) (source_key name : Bytes) (s : Store)
    → IsValid s
    → IsValid (insert_player env source_key name s).1
unfolding insert_player
insert_player_lem env source_key name s v =
    elim (Option-cases (find (has_source_key source_key) s.historical_players)) [
      | inl e ↦ rw e (
          IsValid-tables s _ s.historical_runs s.historical_account_links v (record {
            stat_keys = v.tables.stat_keys;
            player_ids =
                Distinct-snoc (λ (p : PlayerRow). p.id) s.historical_players _ v.tables.player_ids
                  (next_id_fresh (λ (p : PlayerRow). p.id) s.historical_players);
            source_keys =
                Distinct-snoc (λ (p : PlayerRow). p.source_key) s.historical_players _
                  v.tables.source_keys
                  (find-eq-none (has_source_key source_key) s.historical_players
                    (λ p h. ground (arith, equal_iff p.source_key source_key)) e);
            run_keys = v.tables.run_keys;
            linked_keys = v.tables.linked_keys;
          }))
      | inr (p, e) ↦ rw e v
    ]

select_none {ℓ κ} :
    {A : Type ℓ} (P : A → Type κ) (p : A → Bool) (xs : List A)
    → ((x : A) → p x ≡ true → P x)
    → All P (select p xs)
unfolding select
select_none P p [] h = tt
select_none P p (x ∷ xs) h = elim (Bool-cases (p x)) [
  | inl e ↦ rw e (h x e, select_none P p xs h)
  | inr e ↦ rw e (select_none P p xs h)
]

-- The old run with the key of the new one goes first.
run_gone :
    (player_id : ℤ) (run r : RunRow)
    → not (is_run player_id run.key run.period_id r) ≡ true
    → run_key r ≢ (player_id, (run.key, run.period_id))
run_gone player_id run r h =
    keys_differ r.player_id player_id r.key run.key r.period_id run.period_id (ground arith)

replace_run_lem :
    (player : Option PlayerRow) (run : RunRow) (s : Store)
    → IsValid s
    → IsValid (replace_run player run s).1
replace_run_lem none run s v = v
replace_run_lem (some p) run s v = elim (Bool-cases (is_nan run.value)) [
  | inl e ↦ rw e v
  | inr e ↦ rw e (
      IsValid-tables s s.historical_players _ s.historical_account_links v (record {
        stat_keys = v.tables.stat_keys;
        player_ids = v.tables.player_ids;
        source_keys = v.tables.source_keys;
        run_keys =
            Distinct-snoc run_key _ _
              (Distinct-select run_key (λ r. not (is_run p.id run.key run.period_id r))
                s.historical_runs v.tables.run_keys)
              (select_none _ (λ r. not (is_run p.id run.key run.period_id r)) s.historical_runs
                (λ r h. run_gone p.id run r h));
        linked_keys = v.tables.linked_keys;
      }))
]

set_link_lem :
    (source_key : Bytes) (persona_id : ℤ) (s : Store)
    → IsValid s
    → IsValid (set_link source_key persona_id s).1
unfolding set_link
set_link_lem source_key persona_id s v =
    IsValid-tables s s.historical_players s.historical_runs _ v (record {
      stat_keys = v.tables.stat_keys;
      player_ids = v.tables.player_ids;
      source_keys = v.tables.source_keys;
      run_keys = v.tables.run_keys;
      linked_keys =
          Distinct-put (λ (l : LinkRow). l.source_key) (has_source source_key) _
            (λ l h. (equal_iff l.source_key source_key).0 h)
            (λ l h. ground (arith, equal_iff l.source_key source_key)) s.historical_account_links
            v.tables.linked_keys;
    })

delete_link_lem :
    (source_key : Bytes) (s : Store) → IsValid s → IsValid (delete_link source_key s).1
unfolding delete_link
delete_link_lem source_key s v =
    IsValid-tables s s.historical_players s.historical_runs _ v (record {
      stat_keys = v.tables.stat_keys;
      player_ids = v.tables.player_ids;
      source_keys = v.tables.source_keys;
      run_keys = v.tables.run_keys;
      linked_keys =
          Distinct-select (λ (l : LinkRow). l.source_key) _ s.historical_account_links
            v.tables.linked_keys;
    })

module _ (env : Env) where
  stmt_lem {ℓ} : {A : Type ℓ} (m : Run Store A) → Keeps IsValid m → Keeps IsValid (stmt env m)
  stmt_lem m h = Keeps-stmt env m (IsValid-Kept env).free h

  insert_player-Keeps :
      (source_key name : Bytes) → Keeps IsValid (insert_player env source_key name)
  insert_player-Keeps source_key name = record { at = insert_player_lem env source_key name }

  put_run-Keeps : (source_key : Bytes) (run : RunRow) → Keeps IsValid (put_run source_key run)
  unfolding put_run
  put_run-Keeps source_key run = record { at = λ s v. replace_run_lem _ run s v }

  set_link-Keeps : (source_key : Bytes) (id : ℤ) → Keeps IsValid (set_link source_key id)
  set_link-Keeps source_key id = record { at = set_link_lem source_key id }

  delete_link-Keeps : (source_key : Bytes) → Keeps IsValid (delete_link source_key)
  delete_link-Keeps source_key = record { at = delete_link_lem source_key }

  link_player-Keeps :
      (source_key : Bytes) (id : ℤ) (found : Bool)
      → Keeps IsValid (link_player env source_key id found)
  unfolding link_player
  link_player-Keeps source_key id false = search keeps_rules
  link_player-Keeps source_key id true = search (stmt_lem, set_link-Keeps)

  link_persona-Keeps :
      (source_key : Bytes) (id : ℤ) (found : Option Persona)
      → Keeps IsValid (link_persona env source_key id found)
  unfolding link_persona
  link_persona-Keeps source_key id none = search keeps_rules
  link_persona-Keeps source_key id (some p) = search (keeps_rules, stmt_lem, link_player-Keeps)

  add_historical_run-Keeps :
      (source_key name : Bytes) (run : RunRow)
      → Keeps IsValid (add_historical_run env source_key name run)
  unfolding add_historical_run
  add_historical_run-Keeps source_key name run =
      search (keeps_rules, stmt_lem, insert_player-Keeps, put_run-Keeps)

  link_historical_account-Keeps :
      (source_key : Bytes) (id : ℤ) → Keeps IsValid (link_historical_account env source_key id)
  unfolding link_historical_account
  link_historical_account-Keeps source_key id =
      search (keeps_rules, Calls.persona_by_id-Keeps env (IsValid-Kept env), link_persona-Keeps)

  unlink_historical_account-Keeps :
      (source_key : Bytes) → Keeps IsValid (unlink_historical_account env source_key)
  unfolding unlink_historical_account
  unlink_historical_account-Keeps source_key = search (stmt_lem, delete_link-Keeps)

-- `AddHistoricalRun`, `LinkHistoricalAccount` and `UnlinkHistoricalAccount` keep the unique columns of
-- the database unique, however they end.
pub historical-IsValid :
    (env : Env) (source_key name : Bytes) (run : RunRow) (persona_id : ℤ) (s : Store)
    → IsValid s
    → IsValid (add_historical_run env source_key name run s).1
      × IsValid (link_historical_account env source_key persona_id s).1
      × IsValid (unlink_historical_account env source_key s).1
historical-IsValid env source_key name run persona_id s v = (
  (add_historical_run-Keeps env source_key name run).at s v,
  (link_historical_account-Keeps env source_key persona_id).at s v,
  (unlink_historical_account-Keeps env source_key).at s v,
)
