-- ===== src/Locker/Xml.antt =====
-- server/locker/xml.go: the XML that lists files.
pub mod Escape
use medge_net.Prelude.{
  ℕ, ◌+◌, ◌-◌, ◌%◌, ◌^◌, Bool, true, false, List, [], ◌∷◌, ◌++◌, Bytes, codes, ltb, ◌==◌, length,
  if◌then◌else◌,
}
use medge_net.Prelude.Int.{ℤ, pos, negsuc}
use medge_net.Int64.{add_int64}
use medge_net.Text.{is_empty}
use medge_net.Text.Number.{format_int, format_nat}

abbrev pub locker_max_files : ℕ
locker_max_files = 10000

abbrev pub locker_max_bytes : ℕ
locker_max_bytes = 2 ^ 30

pub record Entry : Type 0 where
  pub name : Bytes
  pub desc : Bytes
  pub game : Bytes
  pub typ : Bytes
  pub idnt : Bytes
  pub date : ℤ
  pub file_id : ℤ
  pub attributes : ℤ
  pub size : ℤ
  pub locs : ℤ
  pub perm : ℤ
  pub vers : ℤ
  pub path : Bytes

-- `strings.ReplaceAll` of one byte.
unfoldable pub replace_all : ℕ → Bytes → Bytes → Bytes
replace_all b new [] = []
replace_all b new (c ∷ s) =
    let rest = replace_all b new s in if c == b then new ++ rest else c ∷ rest

unfoldable pub attr : Bytes → Bytes
unfolding replace_all
attr value =
    let value1 = replace_all b'&' (codes "&amp;") value in
    let value2 = replace_all b'"' (codes "&quot;") value1 in
    let value3 = replace_all b'<' (codes "&lt;") value2 in replace_all b'>' (codes "&gt;") value3

unfoldable pub total_bytes : List Entry → ℤ → ℤ
unfolding add_int64
total_bytes [] total = total
total_bytes (e ∷ es) total = total_bytes es (add_int64 total e.size)

-- ` key="value"`
unfoldable pub attribute : Bytes → Bytes → Bytes
attribute key value = codes " " ++ (key ++ (codes "=\"" ++ (value ++ codes "\"")))

unfoldable pub optional_attribute : Bytes → Bytes → Bytes
unfolding attribute attr
optional_attribute key value = if is_empty value then [] else attribute key (attr value)

unfoldable pub file_element : Entry → Bytes
unfolding attribute attr
file_element e =
    codes "<FILE"
    ++ (attribute (codes "name") (attr e.name)
        ++ (attribute (codes "desc") (attr e.desc)
            ++ (attribute (codes "game") (attr e.game)
                ++ (attribute (codes "type") (attr e.typ)
                    ++ (attribute (codes "idnt") (attr e.idnt)
                        ++ (attribute (codes "date") (format_int e.date)
                            ++ (attribute (codes "FileId") (format_int e.file_id)
                                ++ (attribute (codes "attr") (format_int e.attributes)
                                    ++ (attribute (codes "size") (format_int e.size)
                                        ++ (attribute (codes "locs") (format_int e.locs)
                                            ++ (attribute (codes "perm") (format_int e.perm)
                                                ++ (attribute (codes "vers") (format_int e.vers)
                                                    ++ (codes "/>" ++ 10 ∷ [])))))))))))))

unfoldable pub file_elements : List Entry → Bytes
unfolding file_element
file_elements [] = []
file_elements (e ∷ es) = file_element e ++ file_elements es

unfoldable pub build_xml : List Entry → Bytes → Bytes → Bytes
unfolding file_elements total_bytes optional_attribute
build_xml entries game pers =
    codes "<LOCKER"
    ++ (attribute (codes "error") (codes "0")
        ++ (attribute (codes "numFiles") (format_nat (length entries))
            ++ (attribute (codes "maxFiles") (format_nat locker_max_files)
                ++ (attribute (codes "numBytes") (format_int (total_bytes entries (pos 0)))
                    ++ (attribute (codes "maxBytes") (format_nat locker_max_bytes)
                        ++ (optional_attribute (codes "game") game
                            ++ (optional_attribute (codes "pers") pers
                                ++ (if is_empty entries
                                    then codes "/>"
                                    else codes ">"
                                      ++ (10 ∷ (file_elements entries ++ codes "</LOCKER>"))))))))))
