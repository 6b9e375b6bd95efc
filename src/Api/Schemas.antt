-- ===== src/Api/Schemas.antt =====
-- app/api/schemas.py, and what a route comes to. The responses for one row have the fields of what the repository
-- reads, so the types of those stand for them.
use npm_sentinel.Base.{
  ℕ, String, Bool, ◌&&◌, Option, none, some, true, List, [], ◌∷◌, leb, count, one_of,
}
use npm_sentinel.Core.Exceptions.{Exception}

-- The answer of a route with its status code, an `HTTPException` with its code and detail, a request that FastAPI
-- refuses (422), or an exception that no handler of the route catches (500).
pub data Http (A : Type 0) : Type 0 where
  responded : ℕ → A → Http A
  http_exception : ℕ → String → Http A
  unprocessable : Http A
  unhandled : Exception → Http A

pub record EnqueueScanResponse : Type 0 where
  pub status : String
  pub package_name : String
  pub reason : String

pub record ScanBatchRequest : Type 0 where
  pub source : String
  pub limit : ℕ
  pub reason : String

pub record ScanBatchResponse : Type 0 where
  pub status : String
  pub source : String
  pub requested : ℕ
  pub enqueued : ℕ
  pub skipped : ℕ
  pub reason : String

pub record ListResponse (A : Type 0) : Type 0 where
  pub items : List A
  pub total : ℕ
  pub limit : ℕ
  pub offset : ℕ

-- The constraints of `ScanBatchRequest`.
unfoldable pub accepts_batch : ScanBatchRequest → Bool
unfolding one_of
accepts_batch payload =
    one_of ("top_packages" ∷ []) payload.source
    && (leb 1 payload.limit
        && leb payload.limit 1000
        && (leb 1 (count payload.reason) && leb (count payload.reason) 64))

-- `Query(ge=1, le=100)` of a limit.
abbrev pub accepts_limit : ℕ → Bool
accepts_limit limit = leb 1 limit && leb limit 100

-- `Literal[…] | None`
abbrev pub accepts_literal : List String → Option String → Bool
accepts_literal texts none = true
accepts_literal texts (some text) = one_of texts text
