-- ===== src/Runner/Config.antt =====
-- agent/internal/agent/runner.go: decimal numbers, and the connection that a job's tools are given.
pub mod Decimal
pub mod Escape
use db_backup_app.Base.{
  ℕ, zero, suc, ◌+◌, ◌*◌, ◌/◌, ◌%◌, Bool, false, ◌||◌, Option, none, some, List, [], ◌∷◌, ◌++◌,
  ◌==◌, if◌then◌else◌, ℤ, pos, negsuc, Text, lit, is_empty,
}

-- The digits in front of those that are written; `fuel` is what is left of the buffer.
unfoldable pub digits : ℕ → ℕ → Text → Text
digits zero n acc = acc
digits (suc fuel) n acc =
    let rest = digits fuel (n / 10) ((48 + n % 10) ∷ acc) in if n == 0 then acc else rest

-- itoa, with its buffer of 20 bytes, for an int64 other than the least one.
unfoldable pub itoa : ℤ → Text
itoa (pos n) = if n == 0 then lit "0" else digits 20 n []
itoa (negsuc n) = lit "-" ++ digits 19 (suc n) []

pub record ConnectionConfig : Type 0 where
  pub host : Text
  pub port : ℤ
  pub username : Text
  pub password : Text

pub record PgConfig : Type 0 where
  pub host : Text
  pub port : ℤ
  pub user : Text
  pub password : Text

pub record MssqlConfig : Type 0 where
  pub server : Text
  pub user : Text
  pub password : Text
  pub backup_dir : Text

abbrev pub or_default : Text → Text → Text
or_default s default = if is_empty s then default else s

abbrev pub is_port : ℤ → ℕ → Bool
is_port (pos n) p = n == p
is_port (negsuc n) p = false

unfoldable pub pg_for_conn : Option ConnectionConfig → PgConfig → PgConfig
pg_for_conn none fallback = fallback
pg_for_conn (some conn) fallback = record {
  host = or_default conn.host fallback.host;
  port = if is_port conn.port 0 then pos 5432 else conn.port;
  user = or_default conn.username fallback.user;
  password = conn.password;
}

-- strings.ReplaceAll of one byte.
unfoldable pub replace_all : ℕ → Text → Text → Text
replace_all c new [] = []
replace_all c new (x ∷ s) = (if x == c then new else x ∷ []) ++ replace_all c new s

unfoldable pub escape_user : Text → Text
escape_user s =
    replace_all b':' (lit "%3A")
      (replace_all b'/' (lit "%2F") (replace_all b'@' (lit "%40") (replace_all b'%' (lit "%25") s)))

unfoldable pub build_mongo_uri : Text → Text → Text → ℤ → Text
build_mongo_uri user password host port =
    let tail = host ++ (lit ":" ++ (itoa port ++ lit "/?authSource=admin")) in
    if is_empty user
    then lit "mongodb://" ++ tail
    else lit "mongodb://"
      ++ (escape_user user ++ (lit ":" ++ (escape_user password ++ (lit "@" ++ tail))))

unfoldable pub mongo_uri_for_conn : Option ConnectionConfig → Text → Text
mongo_uri_for_conn none fallback = fallback
mongo_uri_for_conn (some conn) fallback =
    build_mongo_uri conn.username conn.password (or_default conn.host (lit "localhost"))
      (if is_port conn.port 0 then pos 27017 else conn.port)

unfoldable pub mssql_for_conn : Option ConnectionConfig → MssqlConfig → MssqlConfig
mssql_for_conn none fallback = fallback
mssql_for_conn (some conn) fallback = record {
  server =
      if is_empty conn.host
      then fallback.server
      else if is_port conn.port 0 || is_port conn.port 1433
      then conn.host
      else conn.host ++ (lit "," ++ itoa conn.port);
  user = or_default conn.username fallback.user;
  password = if is_empty conn.username then fallback.password else conn.password;
  backup_dir = fallback.backup_dir;
}
