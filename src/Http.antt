-- ===== src/Http.antt =====
-- pkg/response/response.go, and what the handlers use of gin and strconv: a path parameter and a query
-- parameter are texts, `c.Get("user_id")` and the outcome of `c.ShouldBindJSON` are options. The texts
-- of error messages are left out.
pub mod Number
pub mod Paging
use distributed_software_hom.Prelude.{ℕ, Option, none, some, List}
use distributed_software_hom.Result.{Error, Result, ok, err}

-- The status code and the data of an answer.
pub record Reply (A : Type 0) : Type 0 where
  pub code : ℕ
  pub content : Option A

module _ {A : Type 0} where
  abbrev pub success : A → Reply A
  success a = record { code = 200; content = some a }

  -- A success without data, as `response.Success(c, nil)`.
  abbrev pub success_nil : Reply A
  success_nil = record { code = 200; content = none }

  abbrev pub error : ℕ → Reply A
  error code = record { code = code; content = none }

  abbrev pub bad_request : Reply A
  bad_request = error 400

  abbrev pub unauthorized : Reply A
  unauthorized = error 401

  abbrev pub forbidden : Reply A
  forbidden = error 403

  abbrev pub not_found : Reply A
  not_found = error 404

  abbrev pub internal_server_error : Reply A
  internal_server_error = error 500

  -- The tail of a handler: the code of the service's error, or its answer.
  abbrev pub respond : (Error → ℕ) → Result A → Reply A
  respond code (err e) = error (code e)
  respond code (ok a) = success a

-- `SuccessPaginated`
pub record PaginatedData (A : Type 0) : Type 0 where
  pub items : List A
  pub total : ℕ
  pub page : ℕ
  pub page_size : ℕ
