-- ===== src/Search/Index.antt =====
-- The OpenSearch server as the client of apps/search-service/internal/opensearch/client.go uses it to
-- store documents, and that client's upsert and delete.
use twitter_microservices.Prelude.{
  ℕ, ◌≡◌, ◌≢◌, ◌⊎◌, Bool, false, ◌&&◌, Option, none, some, [], Bytes, codes, ◌=?◌, ◌==◌,
  if◌then◌else◌, ltb,
}
use twitter_microservices.Shared.Errors.{Error, other, Result, ok, err}

abbrev pub index_tweets : Bytes
index_tweets = codes "tweets"

abbrev pub index_users : Bytes
index_users = codes "users"

-- A request either fails on the way (`none`) or is answered with an HTTP status.
pub record Server : Type 1 where
  pub State : Type 0
  pub index_doc : (index id body : Bytes) → State → State × Option ℕ
  pub delete_doc : (index id : Bytes) → State → State × Option ℕ

-- Response.IsError
abbrev pub is_error : ℕ → Bool
is_error status = ltb 299 status

-- The documents that a server holds, by index and ID.
abbrev pub Docs : Type 0
Docs = Bytes → Bytes → Option Bytes

abbrev pub same_doc : (index id index' id' : Bytes) → Bool
same_doc index id index' id' = index =? index' && id =? id'

abbrev pub with_doc : (index id : Bytes) → Option Bytes → Docs → Docs
with_doc index id body docs =
    λ index' id'. if same_doc index id index' id' then body else docs index' id'

-- The documented behaviour of a server: what an answered request means for the documents. A request
-- to index without an ID, for which the server chooses one, is not described.
pub record KeepsDocs (srv : Server) : Type 0 where
  pub docs : Server.State srv → Docs
  pub indexed :
      (index id body : Bytes) (s : Server.State srv) (status : ℕ)
      → id ≢ []
      → (Server.index_doc srv index id body s).1 ≡ some status
      → is_error status ≡ false
      → (i j : Bytes)
      → docs (Server.index_doc srv index id body s).0 i j
        ≡ with_doc index id (some body) (docs s) i j
  pub deleted :
      (index id : Bytes) (s : Server.State srv) (status : ℕ)
      → (Server.delete_doc srv index id s).1 ≡ some status
      → (is_error status ≡ false) ⊎ (status ≡ 404)
      → (i j : Bytes)
      → docs (Server.delete_doc srv index id s).0 i j ≡ with_doc index id none (docs s) i j

abbrev request_failed : Error
request_failed = other 1

-- The client's errors carry the server's text.
abbrev status_error : ℕ → Error
status_error status = other status

module _ (srv : Server) where
  open srv use {State, index_doc, delete_doc}

  abbrev pub upsert_answer : State × Option ℕ → State × Option Error
  upsert_answer (s, none) = (s, some request_failed)
  upsert_answer (s, some status) = (s, if is_error status then some (status_error status) else none)

  -- upsert, behind json.Marshal
  unfoldable pub upsert : (index id : Bytes) → Result Bytes → State → State × Option Error
  upsert index id (err e) s = (s, some e)
  upsert index id (ok body) s = upsert_answer (index_doc index id body s)

  abbrev pub delete_answer : State × Option ℕ → State × Option Error
  delete_answer (s, none) = (s, some request_failed)
  delete_answer (s, some status) = (
    s,
    if status == 404 then none else if is_error status then some (status_error status) else none,
  )

  -- delete: a document that is not there counts as deleted.
  unfoldable pub delete : (index id : Bytes) → State → State × Option Error
  delete index id s = delete_answer (delete_doc index id s)
