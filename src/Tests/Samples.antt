-- ===== src/Tests/Samples.antt =====
-- A server and some states to try the model on.
use medge_net.Prelude.{
  ℕ, zero, suc, ◌≡◌, ◌<◌, refl, ap, true, false, [], ◌∷◌, Bytes, All, codes, length, arith,
}
use medge_net.Prelude.Int.{pos}
use medge_net.Env.{Config, Env, HmacSize, RandomSize}
use medge_net.Float.{nought}
use medge_net.Store.{Account, Persona, Store}
use medge_net.Fesl.Session.{World}

abbrev pub zeros : ℕ → Bytes
zeros zero = []
zeros (suc n) = 0 ∷ zeros n

abbrev pub sample_cfg : Config
sample_cfg = record {
  bind_host = codes "0.0.0.0";
  fesl_port = pos 18680;
  http_port = pos 80;
  locker_url = codes "http://127.0.0.1";
  memcheck_interval_sec = pos 60;
  db_path = codes "medge.db";
  ghost_dir = codes "ghosts";
  log_path = codes "server.log";
  game_version = codes "1.0";
  max_upload_bytes = pos 1048576;
  max_identifier_length = pos 64;
}

-- A server whose database never fails.
abbrev pub calm_env : Env
calm_env = record {
  cfg = sample_cfg;
  fault = λ t. false;
  stamp = λ t. codes "2024-01-01 00:00:00";
  random = λ t n. zeros n;
  cur_time = λ t. codes "Jan-01-2024 00:00:00 UTC";
  sha256 = λ text. zeros 32;
  hmac = λ key text. zeros 32;
  today = λ t. 19723;
  parse_float = λ text. nought;
  format_float = λ x. codes "0.000000";
  truncate = λ x. pos 0;
  allocates = λ n. true;
  scanned = λ text. text;
}

length-zeros : (n : ℕ) → length (zeros n) ≡ n
length-zeros zero = refl
length-zeros (suc n) = ap suc (length-zeros n)

zeros_bytes : (n : ℕ) → All (λ b. b < 256) (zeros n)
zeros_bytes zero = tt
zeros_bytes (suc n) = (omega arith, zeros_bytes n)

pub calm_env-HmacSize : HmacSize calm_env
calm_env-HmacSize = record { size = λ key text. refl; bytes = λ key text. zeros_bytes 32 }

pub calm_env-RandomSize : RandomSize calm_env
calm_env-RandomSize = record { size = λ t n. length-zeros n; bytes = λ t n. zeros_bytes n }

abbrev pub faith : Account
faith = record { id = pos 1; nuid = codes "faith"; password = codes "x" }

abbrev pub faith_runner : Persona
faith_runner = record { id = pos 1; account_id = pos 1; name = codes "Faith"; created_at = [] }

abbrev pub kate_runner : Persona
kate_runner = record { id = pos 2; account_id = pos 2; name = codes "Kate"; created_at = [] }

abbrev pub two_runners : Store
two_runners = record {
  accounts = faith ∷ [];
  personas = faith_runner ∷ kate_runner ∷ [];
  friends =
      (record { persona_id = pos 2; friend_persona_id = pos 1; typ = codes "PlasmaFriends" }) ∷ [];
  login_tokens =
      (record { token_hash = codes "old"; account_id = pos 1; created_at = []; last_used_at = [] })
      ∷ [];
  stats = [];
  historical_players = [];
  historical_runs = [];
  historical_account_links = [];
  ticks = 0;
}

-- Faith's session, with her persona logged in.
abbrev pub faith_world : World
faith_world = record {
  session = record {
    account_id = pos 1;
    persona_id = pos 1;
    persona_name = codes "Faith";
    nuid = codes "faith";
    lkey = codes "key";
  };
  store = two_runners;
}
