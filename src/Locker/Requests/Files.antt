-- ===== src/Locker/Requests/Files.antt =====
-- server/locker/server.go: which files a request changes.
pub mod Others
use medge_net.Prelude.{
  ◌≡◌, ◌≢◌, ◌⊎◌, inl, inr, refl, Bool, true, false, not, ◌||◌, [], ◌∷◌, ◌++◌, some, Bytes, codes,
  equal, equal_iff, equal_refl, length, Bool-cases, arith,
}
use medge_net.Exec.{Run, pure, catch, ◌>>=◌}
use medge_net.Exec.Keeps.{Keeps, Keeps-pure, Keeps-catch}
use medge_net.Fesl.Validate.{exceeds}
use medge_net.Locker.Files.{Locker, Url, LockerEnv, is_file}
use medge_net.Locker.Requests.{
  xml, locker_error, json_suffix, is_safe, file_name, handle_put, run_command, on_url,
  handle_http_request,
}
use medge_net.Locker.Xml.{Entry, build_xml}
use medge_net.Text.{contains}
use medge_net.Packet.{Params, param}
use medge_net.Store.{find, put}
use medge_net.Locker.Requests.Files.Others.{
  Same, handle_dir_lem, handle_nfo_lem, handle_get_lem, store_ghost_lem,
}

-- The request stores the file `n`: it is a `put` of safe names, and `n` is the ghost's file or that of
-- its metadata.
pub record Stores (e : LockerEnv) (params : Params) (n : Bytes) : Type 0 where
  pub is_put : equal (param params (codes "cmd")) (codes "put") ≡ true
  pub safe_pers : is_safe e (param params (codes "pers")) ≡ true
  pub safe_name : is_safe e (param params (codes "name")) ≡ true
  pub target :
      (n ≡ file_name e (param params (codes "pers")) (param params (codes "name")))
      ⊎ (n ≡ file_name e (param params (codes "pers")) (param params (codes "name")) ++ json_suffix)

module _ (e : LockerEnv) (params : Params) (body n : Bytes) (w : Locker) where
  abbrev pers : Bytes
  pers = param params (codes "pers")

  abbrev name : Bytes
  name = param params (codes "name")

  abbrev Unchanged : Locker → Type 0
  Unchanged after = find (is_file n) after.files ≡ find (is_file n) w.files

  abbrev cmd : Bytes
  cmd = param params (codes "cmd")

  both_safe : (x a b : Bool) → (x || (not a || not b)) ≡ false → (a ≡ true) × (b ≡ true)
  both_safe x a b h = ground arith

  unequal : (a : Bytes) → equal n a ≡ false → a ≢ n
  unequal a f p = absurd (cc (rw (p, equal_refl n) at f))

  answer_lem :
      (m : Run Locker Entry)
      → Keeps (Same e n (find (is_file n) w.files)) m
      → Unchanged
          (catch m
            (λ entry. pure (xml (build_xml (entry ∷ []) [] [])))
            (λ _. pure locker_error)
            w).1
  answer_lem m k =
      (Keeps-catch {P = Same e n (find (is_file n) w.files)} m _ _ k (λ entry. Keeps-pure _)
          (λ _. Keeps-pure _)).at
        w refl

  put_lem :
      equal (param params (codes "cmd")) (codes "put") ≡ true
      → Unchanged (handle_put e params pers name body w).1 ⊎ Stores e params n
  unfolding handle_put ◌>>=◌
  put_lem is_put =
      elim (Bool-cases (
        exceeds (length body) e.env.cfg.max_upload_bytes
        || (not (is_safe e pers) || not (is_safe e name)))) [
          | inl r ↦ rw r (inl refl)
          | inr r ↦
              let safe =
                both_safe (exceeds (length body) e.env.cfg.max_upload_bytes) (is_safe e pers)
                  (is_safe e name) r in
              elim (Bool-cases (equal n (file_name e pers name))) [
                | inl f ↦ inr (record {
                  is_put = is_put;
                  safe_pers = safe.0;
                  safe_name = safe.1;
                  target = inl ((equal_iff n (file_name e pers name)).0 f);
                })
                | inr f ↦ elim (Bool-cases (equal n (file_name e pers name ++ json_suffix))) [
                  | inl j ↦ inr (record {
                    is_put = is_put;
                    safe_pers = safe.0;
                    safe_name = safe.1;
                    target = inr ((equal_iff n (file_name e pers name ++ json_suffix)).0 j);
                  })
                  | inr j ↦
                      let stored =
                        store_ghost_lem e n (find (is_file n) w.files) params pers name body
                          (unequal (file_name e pers name) f)
                          (unequal (file_name e pers name ++ json_suffix) j) in
                      rw r (inl (answer_lem _ stored))
                ]
              ]
        ]

  command_lem : Unchanged (run_command e params body w).1 ⊎ Stores e params n
  unfolding run_command ◌>>=◌
  command_lem = elim (Bool-cases (equal cmd (codes "dir"))) [
    | inl a ↦ rw a (inl ((handle_dir_lem e n _ params pers).at w refl))
    | inr a ↦ elim (Bool-cases (equal cmd (codes "nfo"))) [
      | inl b ↦ rw (a, b) (inl ((handle_nfo_lem e n _ params pers name).at w refl))
      | inr b ↦ elim (Bool-cases (equal cmd (codes "get"))) [
        | inl c ↦ rw (a, b, c) (inl ((handle_get_lem e n _ pers name).at w refl))
        | inr c ↦ elim (Bool-cases (equal cmd (codes "put"))) [
          | inl d ↦ rw (a, b, c, d) (put_lem d)
          | inr d ↦ rw (a, b, c, d) (inl refl)
        ]
      ]
    ]
  ]

-- A request changes the file of a name only where it is a `put` whose `pers` and `name` are safe, and
-- the file is then `pers_name` or `pers_name.json`; every other file is as it was, however the
-- request ends and whatever statements and calls of the system fail.
pub handle_http_request-Stores :
    (e : LockerEnv) (path body n : Bytes) (w : Locker) (url : Url)
    → e.parse_url path ≡ some url
    → (find (is_file n) (handle_http_request e path body w).1.files ≡ find (is_file n) w.files)
      ⊎ Stores e url.query n
unfolding handle_http_request on_url ◌>>=◌
handle_http_request-Stores e path body n w url parsed =
    rw parsed (elim (Bool-cases (equal url.path (codes "/healthz"))) [
      | inl a ↦ rw a (inl refl)
      | inr a ↦
          elim (Bool-cases
            (contains url.path (codes "/easo/editorial") || contains url.path (codes "/version"))) [
              | inl b ↦ rw (a, b) (inl refl)
              | inr b ↦ rw (a, b) (command_lem e url.query body n w)
            ]
    ])
