-- ===== src/Fesl/Dispatch/Keeps.antt =====
-- What every entry of the handler map keeps, `dispatch` keeps.
use medge_net.Prelude.{List, [], ◌∷◌, Bytes, All, Bool-cases, inl, inr, equal}
use medge_net.Env.{Env}
use medge_net.Exec.Keeps.{Keeps, Keeps-pure}
use medge_net.Packet.{Packet}
use medge_net.Store.{Store}
use medge_net.Store.Calls.{Kept}
use medge_net.Fesl.Dispatch.{Route, find_handler, handlers, run_handler, dispatch}
use medge_net.Fesl.Session.Keeps.{OfStore}
use medge_net.Fesl.Associations.Keeps.{
  FriendsKept, handle_add_associations-Keeps, handle_delete_associations-Keeps,
  handle_get_associations-Keeps,
}
use medge_net.Fesl.Rank.Keeps.{
  handle_get_stats-Keeps, handle_get_ranked_stats-Keeps, handle_get_stats_for_owners-Keeps,
  handle_get_ranked_stats_for_owners-Keeps, handle_get_top_n_and_stats-Keeps,
  handle_update_stats-Keeps,
}
use medge_net.Fesl.Handlers.{
  handle_hello-Keeps, handle_nu_add_account-Keeps, handle_nu_add_persona-Keeps,
  handle_nu_get_personas-Keeps, handle_nu_login-Keeps, handle_nu_login_persona-Keeps,
  handle_nu_lookup_user_info-Keeps,
}

-- A property of every handler of the table.
abbrev pub AllKeep {κ} : (Store → Type κ) → List Route → Type κ
AllKeep P = All (λ (r : Route). (pkt : Packet) → Keeps (OfStore P) (r.handler pkt))

module _ {κ} {P : Store → Type κ} (env : Env) (k : Kept env P) (kf : FriendsKept P) where
  -- Each entry of the handler map.
  pub handlers-Keeps : AllKeep P (handlers env)
  unfolding handlers
  handlers-Keeps = (
    handle_hello-Keeps env k,
    (
      handle_nu_login-Keeps env k,
      (
        handle_nu_login-Keeps env k,
        (
          handle_nu_add_account-Keeps env k,
          (
            handle_nu_get_personas-Keeps env k,
            (
              handle_nu_login_persona-Keeps env k,
              (
                handle_nu_add_persona-Keeps env k,
                (
                  λ pkt. Keeps-pure _,
                  (
                    λ pkt. Keeps-pure _,
                    (
                      λ pkt. Keeps-pure _,
                      (
                        λ pkt. Keeps-pure _,
                        (
                          λ pkt. Keeps-pure _,
                          (
                            λ pkt. Keeps-pure _,
                            (
                              λ pkt. Keeps-pure _,
                              (
                                handle_nu_lookup_user_info-Keeps env k,
                                (
                                  handle_get_associations-Keeps env k,
                                  (
                                    handle_add_associations-Keeps env k kf,
                                    (
                                      handle_delete_associations-Keeps env k kf,
                                      (
                                        λ pkt. Keeps-pure _,
                                        (
                                          λ pkt. Keeps-pure _,
                                          (
                                            λ pkt. Keeps-pure _,
                                            (
                                              λ pkt. Keeps-pure _,
                                              (
                                                handle_get_stats-Keeps env k,
                                                (
                                                  handle_get_ranked_stats-Keeps env k,
                                                  (
                                                    handle_get_stats_for_owners-Keeps env k,
                                                    (
                                                      handle_get_ranked_stats_for_owners-Keeps env
                                                          k,
                                                      (
                                                        handle_get_top_n_and_stats-Keeps env k,
                                                        (
                                                          handle_update_stats-Keeps env k,
                                                          (handle_update_stats-Keeps env k, tt),
                                                        ),
                                                      ),
                                                    ),
                                                  ),
                                                ),
                                              ),
                                            ),
                                          ),
                                        ),
                                      ),
                                    ),
                                  ),
                                ),
                              ),
                            ),
                          ),
                        ),
                      ),
                    ),
                  ),
                ),
              ),
            ),
          ),
        ),
      ),
    ),
  )

module _ {κ} (P : Store → Type κ) where
  run_find-Keeps :
      (pkt : Packet) (txn name : Bytes) (table : List Route)
      → AllKeep P table
      → Keeps (OfStore P) (run_handler pkt name (find_handler txn table))
  unfolding run_handler find_handler
  run_find-Keeps pkt txn name [] h = Keeps-pure _
  run_find-Keeps pkt txn name (r ∷ rs) h = elim (Bool-cases (equal r.txn txn)) [
    | inl e ↦ rw e (h.0 pkt)
    | inr e ↦ rw e (run_find-Keeps pkt txn name rs h.1)
  ]

  pub dispatch-Keeps :
      (table : List Route) (pkt : Packet) → AllKeep P table → Keeps (OfStore P) (dispatch table pkt)
  unfolding dispatch
  dispatch-Keeps table pkt h = run_find-Keeps pkt _ _ table h
