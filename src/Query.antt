-- ===== src/Query.antt =====
-- src/query.rs, and from src/proxy/custom.rs the reading of a query. A `&str` is its bytes.
use rama_pg.Bytes.{Bytes, codes}
use rama_pg.Bytes.Search.{split_once, strip_prefix}
use rama_pg.Bytes.Utf8.{from_utf8}
use rama_pg.Prelude.{
  ℕ, zero, suc, ◌-◌, List, [], ◌∷◌, map, reverse, length, Option, none, some, ◌&&◌, leb,
  if◌then◌else◌, Result, ok, err,
}

pub data TxnStatus : Type 0 where
  idle : TxnStatus
  in_transaction : TxnStatus
  failed : TxnStatus

-- `TxnStatus::code`
abbrev pub code : TxnStatus → ℕ
code idle = b'I'
code in_transaction = b'T'
code failed = b'E'

pub data QueryResponse : Type 0 where
  rows : List Bytes → List (List (Option Bytes)) → Bytes → QueryResponse
  command : Bytes → QueryResponse
  error : Bytes → Bytes → QueryResponse

-- `QueryResponse::scalar`
unfoldable pub scalar : Bytes → Bytes → QueryResponse
scalar column value = rows (column ∷ []) ((some value ∷ []) ∷ []) (codes "SELECT 1")

-- A handler is told the user, the database, the transaction status and the query; it may also set
-- the status, which `ctx.state` lets it do.
abbrev pub QueryHandler : Type 0
QueryHandler = Bytes → Bytes → TxnStatus → Bytes → QueryResponse × TxnStatus

-- The encodings of the characters that are `char::is_whitespace`.
abbrev pub white_space : List Bytes
white_space =
    (9 ∷ [])
    ∷ (10 ∷ [])
    ∷ (11 ∷ [])
    ∷ (12 ∷ [])
    ∷ (13 ∷ [])
    ∷ (32 ∷ [])
    ∷ (194 ∷ 133 ∷ [])
    ∷ (194 ∷ 160 ∷ [])
    ∷ (225 ∷ 154 ∷ 128 ∷ [])
    ∷ (226 ∷ 128 ∷ 128 ∷ [])
    ∷ (226 ∷ 128 ∷ 129 ∷ [])
    ∷ (226 ∷ 128 ∷ 130 ∷ [])
    ∷ (226 ∷ 128 ∷ 131 ∷ [])
    ∷ (226 ∷ 128 ∷ 132 ∷ [])
    ∷ (226 ∷ 128 ∷ 133 ∷ [])
    ∷ (226 ∷ 128 ∷ 134 ∷ [])
    ∷ (226 ∷ 128 ∷ 135 ∷ [])
    ∷ (226 ∷ 128 ∷ 136 ∷ [])
    ∷ (226 ∷ 128 ∷ 137 ∷ [])
    ∷ (226 ∷ 128 ∷ 138 ∷ [])
    ∷ (226 ∷ 128 ∷ 168 ∷ [])
    ∷ (226 ∷ 128 ∷ 169 ∷ [])
    ∷ (226 ∷ 128 ∷ 175 ∷ [])
    ∷ (226 ∷ 129 ∷ 159 ∷ [])
    ∷ (227 ∷ 128 ∷ 128 ∷ [])
    ∷ []

abbrev or_try {ℓ} : {A : Type ℓ} → Option A → Option A → Option A
or_try none b = b
or_try (some a) b = some a

abbrev pub strip_any : List Bytes → Bytes → Option Bytes
strip_any [] s = none
strip_any (p ∷ ps) s = or_try (strip_prefix p s) (strip_any ps s)

abbrev trimmed : (Bytes → Bytes) → Option Bytes → Bytes → Bytes
trimmed next none s = s
trimmed next (some rest) s = next rest

abbrev trim_loop : ℕ → List Bytes → Bytes → Bytes
trim_loop zero ps s = s
trim_loop (suc n) ps s = trimmed (trim_loop n ps) (strip_any ps s) s

-- Every trim removes a byte: the length is enough fuel.
abbrev pub trim_start : List Bytes → Bytes → Bytes
trim_start ps s = trim_loop (length s) ps s

abbrev pub trim_end : List Bytes → Bytes → Bytes
trim_end ps s = reverse (trim_start (map reverse ps) (reverse s))

unfoldable pub trim : Bytes → Bytes
trim s = trim_end white_space (trim_start white_space s)

abbrev word_or : Option Bytes → ℕ → Bytes → Bytes
word_or none b word = b ∷ word
word_or (some rest) b word = []

abbrev pub first_word : Bytes → Bytes
first_word [] = []
first_word (b ∷ bs) = word_or (strip_any white_space (b ∷ bs)) b (first_word bs)

abbrev pub upper : ℕ → ℕ
upper b = if leb b'a' b && leb b b'z' then b - 32 else b

-- `sql.trim().trim_end_matches(';').trim()`
unfoldable pub trim_query : Bytes → Bytes
trim_query sql = trim (trim_end ((b';' ∷ []) ∷ []) (trim sql))

-- `split_whitespace().next().unwrap_or("").to_ascii_uppercase()` of a trimmed query
unfoldable pub verb_of : Bytes → Bytes
verb_of trimmed = map upper (first_word (trim_start white_space trimmed))

abbrev before_nul : Option (Bytes × Bytes) → Bytes → Bytes
before_nul none payload = payload
before_nul (some (sql, rest)) payload = sql

abbrev or_blank : Result Bytes → Bytes
or_blank (ok s) = s
or_blank (err e) = []

-- `query_sql`
unfoldable pub query_sql : Bytes → Bytes
query_sql payload = or_blank (from_utf8 (before_nul (split_once 0 payload) payload))
