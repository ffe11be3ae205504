-- ===== src/Locker/Requests/Answers.antt =====
-- server/locker/server.go: every request gets a response, and which.
pub mod Listings
use medge_net.Prelude.{
  ◌≡◌, ◌≤◌, ◌⊎◌, inl, inr, refl, arith, Bool, true, false, not, ◌&&◌, ◌||◌, List, [], ◌∷◌, Option,
  none, some, Bytes, codes, equal, length, Bool-cases,
}
use medge_net.Exec.{ok, Run, pure, ◌>>=◌}
use medge_net.Exec.Ends.{Ends, ends_rules}
use medge_net.Exec.Returns.{
  Replies-map, Replies, Replies-pure, Ends-Returns, Replies-bind, Replies-catch,
}
use medge_net.Fesl.Validate.{exceeds}
use medge_net.Locker.Files.{File, Locker, Url, LockerEnv, now, mkdir_all, write_file}
use medge_net.Locker.Requests.{
  Response, xml, locker_error, no_file, json_suffix, is_safe, wanted, send_entry, handle_dir,
  handle_nfo, handle_get, save_meta, store_ghost, handle_put, run_command, on_url,
  handle_http_request,
}
use medge_net.Locker.Requests.Answers.Listings.{
  FoundIn, Same, ReadFrom, read_file_lem, ghost_entries_lem, find_ghost_entry_lem, cap_lem,
}
use medge_net.Locker.Xml.{Entry, build_xml}
use medge_net.Packet.{Params, param}
use medge_net.Text.{contains, has_suffix, is_empty}

-- The response to a request, with the files of the directory before it: a fixed text; a list of files
-- for a safe persona, of at most 150 unless the name is safe too; the acknowledgement of a ghost with
-- safe names within the size limit; no file; or, for safe names, the content of a file of the
-- directory, which is not a directory or metadata.
pub data Reply (e : LockerEnv) (files : List File) (params : Params) (sent : Bytes) (r : Response)
    : Type 0 where
  refused : r ≡ locker_error → Reply e files params sent r
  unknown_command : r ≡ xml (codes "<LOCKER error=\"0\"/>") → Reply e files params sent r
  healthy :
      r ≡ record { code = 200; body = codes "ok\n"; content_type = codes "text/plain" }
      → Reply e files params sent r
  version : r ≡ xml e.env.cfg.game_version → Reply e files params sent r
  absent : r.code ≡ 404 → r.body ≡ [] → Reply e files params sent r
  listing :
      (entries : List Entry)
      → is_safe e (param params (codes "pers")) ≡ true
      → (length entries ≤ 150) ⊎ (is_safe e (param params (codes "name")) ≡ true)
      → r ≡ xml (build_xml entries (param params (codes "game")) (param params (codes "pers")))
      → Reply e files params sent r
  stored :
      (entry : Entry)
      → is_safe e (param params (codes "pers")) ≡ true
      → is_safe e (param params (codes "name")) ≡ true
      → exceeds (length sent) e.env.cfg.max_upload_bytes ≡ false
      → r ≡ xml (build_xml (entry ∷ []) [] [])
      → Reply e files params sent r
  content :
      (name : Bytes)
      → is_safe e (param params (codes "pers")) ≡ true
      → is_safe e (param params (codes "name")) ≡ true
      → has_suffix name json_suffix ≡ false
      → ReadFrom files name r.body
      → r.code ≡ 200
      → Reply e files params sent r

module _ (e : LockerEnv) (files : List File) (params : Params) (sent : Bytes) where
  abbrev pers : Bytes
  pers = param params (codes "pers")

  abbrev name : Bytes
  name = param params (codes "name")

  abbrev Given : Response → Type 0
  Given = Reply e files params sent

  abbrev Gets : Run Locker Response → Type 0
  Gets m = Replies (Same e files) Given m

  refused_lem : Gets (pure locker_error)
  refused_lem = Replies-pure _ (refused refl)

  absent_lem : Gets (pure no_file)
  absent_lem = Replies-pure _ (absent refl refl)

  listing_lem :
      (entries : List Entry)
      → is_safe e pers ≡ true
      → (length entries ≤ 150) ⊎ (is_safe e name ≡ true)
      → Gets (pure (xml (build_xml entries (param params (codes "game")) pers)))
  listing_lem entries safe few = Replies-pure _ (listing entries safe few refl)

  safe_lem : (a : Bool) → not a ≡ false → a ≡ true
  safe_lem a h = ground arith

  handle_dir_lem : Gets (handle_dir e params pers)
  unfolding handle_dir
  handle_dir_lem = elim (Bool-cases (not (is_safe e pers))) [
    | inl h ↦ rw h refused_lem
    | inr h ↦ rw h (
        Replies-catch _ _ _ (ghost_entries_lem e files pers)
          (λ entries _.
            Replies-bind _ _ (cap_lem e files entries)
              λ listed few. listing_lem listed (safe_lem _ h) (inl few))
          (λ _. refused_lem))
  ]

  nfo_safe :
      (a b c : Bool) → (not a || not b && not c) ≡ false → (a ≡ true) × ((b ≡ true) ⊎ (c ≡ true))
  nfo_safe a b c h = elim (Bool-cases b) [
    | inl q ↦ (ground arith, inl q)
    | inr q ↦ (ground arith, inr (ground arith))
  ]

  wanted_lem :
      (entries : List Entry)
      → (is_empty name ≡ true) ⊎ (is_safe e name ≡ true)
      → Replies
          (Same e files)
          (λ es. (length es ≤ 150) ⊎ (is_safe e name ≡ true))
          (wanted name entries)
  unfolding wanted
  wanted_lem entries safe = elim (Bool-cases (is_empty name)) [
    | inl q ↦ rw q (Replies-map (λ es. inl) (cap_lem e files entries))
    | inr q ↦ rw q (Replies-pure _ (inr (elim safe [ inl p ↦ absurd (cc) | inr p ↦ p ])))
  ]

  handle_nfo_lem : Gets (handle_nfo e params pers name)
  unfolding handle_nfo
  handle_nfo_lem =
      elim (Bool-cases (not (is_safe e pers) || not (is_empty name) && not (is_safe e name))) [
        | inl h ↦ rw h refused_lem
        | inr h ↦
            let safe = nfo_safe (is_safe e pers) (is_empty name) (is_safe e name) h in
            rw h (
              Replies-catch _ _ _ (ghost_entries_lem e files pers)
                (λ entries _.
                  Replies-bind _ _ (wanted_lem entries safe.1)
                    λ listed few. listing_lem listed safe.0 few)
                (λ _. refused_lem))
      ]

  send_entry_lem :
      (found : Option Entry)
      → is_safe e pers ≡ true
      → is_safe e name ≡ true
      → FoundIn found
      → Gets (send_entry e found)
  unfolding send_entry
  send_entry_lem none p n h = absent_lem
  send_entry_lem (some entry) p n h =
      Replies-catch _ _ _ (read_file_lem e files entry.path)
        (λ text from. Replies-pure _ (content entry.path p n h from refl)) (λ _. absent_lem)

  both_safe : (a b : Bool) → (not a || not b) ≡ false → (a ≡ true) × (b ≡ true)
  both_safe a b h = ground arith

  handle_get_lem : Gets (handle_get e pers name)
  unfolding handle_get
  handle_get_lem = elim (Bool-cases (not (is_safe e pers) || not (is_safe e name))) [
    | inl h ↦ rw h absent_lem
    | inr h ↦
        let (p, n) = both_safe (is_safe e pers) (is_safe e name) h in
        rw h (
          Replies-catch _ _ _ (find_ghost_entry_lem e files pers name)
            (λ found f. send_entry_lem found p n f) (λ _. absent_lem))
  ]

  mkdir_all_lem : Ends Unit (mkdir_all e)
  unfolding mkdir_all
  mkdir_all_lem = record { at = λ w p. ground arith }

  now_lem : Ends _ (now e)
  unfolding now
  now_lem = record { at = λ w p. ground arith }

  write_file_lem : (path text : Bytes) → Ends Unit (write_file e path text)
  unfolding write_file
  write_file_lem path text = record { at = λ w p. ground arith }

  store_ghost_lem : Ends Entry (store_ghost e params pers name sent)
  unfolding store_ghost save_meta
  store_ghost_lem = search (ends_rules, mkdir_all_lem, now_lem, write_file_lem)

  -- A `put` changes the files.
  abbrev Puts : Run Locker Response → Type 0
  Puts m = Replies (λ (w : Locker). Unit {0}) Given m

  put_safe :
      (x a b : Bool) → (x || (not a || not b)) ≡ false → (x ≡ false) × (a ≡ true) × (b ≡ true)
  put_safe x a b h = ground arith

  handle_put_lem : Puts (handle_put e params pers name sent)
  unfolding handle_put
  handle_put_lem =
      elim (Bool-cases (
        exceeds (length sent) e.env.cfg.max_upload_bytes
        || (not (is_safe e pers) || not (is_safe e name)))) [
          | inl h ↦ rw h (Replies-pure _ (refused refl))
          | inr h ↦
              let (fits, p, n) = put_safe _ (is_safe e pers) (is_safe e name) h in
              rw h (
                Replies-catch _ _ _ (Ends-Returns _ store_ghost_lem)
                  (λ entry _. Replies-pure _ (stored entry p n fits refl))
                  (λ _. Replies-pure _ (refused refl)))
        ]

  -- The response of a call from a state.
  abbrev Responds : Run Locker Response → Locker → Type 0
  Responds m w = (r : Response) × ((m w).0 ≡ ok r) × Given r

  run_command_lem : (w : Locker) → w.files ≡ files → Responds (run_command e params sent) w
  unfolding run_command ◌>>=◌
  run_command_lem w i =
      let cmd = param params (codes "cmd") in
      elim (Bool-cases (equal cmd (codes "dir"))) [
        | inl a ↦ rw a (handle_dir_lem.at w i).0
        | inr a ↦ elim (Bool-cases (equal cmd (codes "nfo"))) [
          | inl b ↦ rw (a, b) (handle_nfo_lem.at w i).0
          | inr b ↦ elim (Bool-cases (equal cmd (codes "get"))) [
            | inl c ↦ rw (a, b, c) (handle_get_lem.at w i).0
            | inr c ↦ elim (Bool-cases (equal cmd (codes "put"))) [
              | inl d ↦ rw (a, b, c, d) (handle_put_lem.at w tt).0
              | inr d ↦ rw (a, b, c, d) (_, refl, unknown_command refl)
            ]
          ]
        ]
      ]

abbrev pub query_of : Option Url → Params
query_of none = []
query_of (some url) = url.query

on_url_lem :
    (e : LockerEnv) (sent : Bytes) (w : Locker) (url : Option Url)
    → (r : Response) × ((on_url e sent url w).0 ≡ ok r) × Reply e w.files (query_of url) sent r
unfolding on_url ◌>>=◌
on_url_lem e sent w none = (_, refl, absent refl refl)
on_url_lem e sent w (some url) = elim (Bool-cases (equal url.path (codes "/healthz"))) [
  | inl a ↦ rw a (_, refl, healthy refl)
  | inr a ↦
      elim (Bool-cases
        (contains url.path (codes "/easo/editorial") || contains url.path (codes "/version"))) [
          | inl b ↦ rw (a, b) (_, refl, version refl)
          | inr b ↦ rw (a, b) (run_command_lem e w.files url.query sent w refl)
        ]
]

-- Every request of the locker gets a response, whatever statements and calls of the system fail, and
-- nothing in it panics. The response is a fixed text; a list of files for a safe persona, of at most
-- 150 unless the name is safe too; the acknowledgement of a ghost with safe names within the size
-- limit; a 404 without a body; or, for safe names, the content of a file that was in the directory and
-- is neither a directory nor metadata.
pub handle_http_request-Reply :
    (e : LockerEnv) (path sent : Bytes) (w : Locker)
    → (r : Response) × ((handle_http_request e path sent w).0 ≡ ok r)
      × Reply e w.files (query_of (e.parse_url path)) sent r
unfolding handle_http_request
handle_http_request-Reply e path sent w = on_url_lem e sent w (e.parse_url path)
