-- ===== src/Env.antt =====
-- What the server takes from outside: its configuration (server/config/config.go), and the clock,
-- random bytes, failures of the database and library functions that its source does not implement.
use medge_net.Prelude.{ℕ, Bool, Bytes, ◌≡◌, length, All, ◌<◌}
use medge_net.Prelude.Int.{ℤ}
use medge_net.Float.{Float64}

-- `config.Config`.
pub record Config : Type 0 where
  pub bind_host : Bytes
  pub fesl_port : ℤ
  pub http_port : ℤ
  pub locker_url : Bytes
  pub memcheck_interval_sec : ℤ
  pub db_path : Bytes
  pub ghost_dir : Bytes
  pub log_path : Bytes
  pub game_version : Bytes
  pub max_upload_bytes : ℤ
  pub max_identifier_length : ℤ

-- A tick is the number of statements and random reads so far. `fault t` says that the statement at
-- tick `t` fails, before it changes anything. `stamp t` is the database's CURRENT_TIMESTAMP there,
-- `random t n` the `n` bytes that `rand.Read` gives there, and `cur_time t` the server's UTC time in
-- the format of the Hello reply; `today t` the number of days from 1970-01-01 to its date there.
-- `parse_float` is the value of `strconv.ParseFloat(s, 64)`, which it also gives beside an error, and
-- `format_float` the verb `%.6f`, and `truncate` the conversion of a float64 to an int.
-- `allocates n` says that the runtime finds `n` bytes for a slice; where it does not, the process ends.
-- `scanned` is the text that the SQLite driver gives for a TIMESTAMP column, which it reads as a time.
pub record Env : Type 0 where
  pub cfg : Config
  pub fault : ℕ → Bool
  pub stamp : ℕ → Bytes
  pub random : ℕ → ℕ → Bytes
  pub cur_time : ℕ → Bytes
  pub sha256 : Bytes → Bytes
  pub hmac : Bytes → Bytes → Bytes
  pub today : ℕ → ℕ
  pub parse_float : Bytes → Float64
  pub format_float : Float64 → Bytes
  pub truncate : Float64 → ℤ
  pub allocates : ℕ → Bool
  pub scanned : Bytes → Bytes

-- HMAC-SHA256 gives 32 bytes.
pub record HmacSize (env : Env) : Type 0 where
  pub size : (key text : Bytes) → length (env.hmac key text) ≡ 32
  pub bytes : (key text : Bytes) → All (λ b. b < 256) (env.hmac key text)

-- `rand.Read` fills the buffer.
pub record RandomSize (env : Env) : Type 0 where
  pub size : (t n : ℕ) → length (env.random t n) ≡ n
  pub bytes : (t n : ℕ) → All (λ b. b < 256) (env.random t n)
