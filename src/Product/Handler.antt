-- ===== src/Product/Handler.antt =====
-- internal/product/handler.go, over the cached service.
use distributed_software_hom.Prelude.{ℕ, String, Bool, Option, none, some}
use distributed_software_hom.Result.{Error, Result, ok, err, product_not_found}
use distributed_software_hom.Database.{Table}
use distributed_software_hom.Redis.{Redis}
use distributed_software_hom.Http.{Reply, success, success_nil, error, bad_request, PaginatedData}
use distributed_software_hom.Http.Number.{parse_uint}
use distributed_software_hom.Http.Paging.{Pages, page_of, page_size_of, paginated}
use distributed_software_hom.Inventory.{Inventory}
use distributed_software_hom.Product.{
  Product, product_schema, CreateProductRequest, UpdateProductRequest, create_product,
  list_products,
}
use distributed_software_hom.Product.Cached.{
  Json, get_cached_product, update_cached_product, delete_cached_product,
}

pub record ProductDetailResponse (F : Type 0) : Type 0 where
  pub product : Product F
  pub inventory : Option Inventory

abbrev pub product_code : Error → ℕ
product_code product_not_found = 404
product_code e = 500

module _ {F S D : Type 0} (products : Table S (Product F) product_schema) (redis : Redis D)
    (json : Json F) where
  unfoldable pub handle_create_product : Option (CreateProductRequest F) → S → Reply (Product F) × S
  handle_create_product none s = (bad_request, s)
  handle_create_product (some req) s = elim (create_product products req s) [
    | err e ↦ (error 500, s)
    | ok (p, s') ↦ (success p, s')
  ]

  -- The stock of a product, if the server has an inventory service and this one finds it.
  abbrev pub stock_of : Option (ℕ → Result Inventory) → ℕ → Option Inventory
  stock_of none id = none
  stock_of (some get_inventory) id = elim (get_inventory id) [ ok inv ↦ some inv | err e ↦ none ]

  abbrev pub detail :
      Option (ℕ → Result Inventory) → ℕ → Result (Product F) → Reply (ProductDetailResponse F)
  detail service id (err e) = error (product_code e)
  detail service id (ok p) = success (record { product = p; inventory = stock_of service id })

  unfoldable pub handle_get_product :
      Option (ℕ → Result Inventory) → String → S → D → Reply (ProductDetailResponse F) × D
  handle_get_product service text s d = elim (parse_uint text) [
    | none ↦ (bad_request, d)
    | some id ↦
        let (r, d') = get_cached_product products redis json id s d in (detail service id r, d')
  ]

  unfoldable pub handle_list_products :
      Pages products → Option String → Option String → S → Reply (PaginatedData (Product F))
  handle_list_products pages page page_size s =
      paginated (page_of page) (page_size_of page_size)
        (list_products products pages (page_of page) (page_size_of page_size) s)

  abbrev pub updated_by :
      (F → Bool) → ℕ → Option (UpdateProductRequest F) → S → D → Reply (Product F) × S × D
  updated_by is_positive id none s d = (bad_request, s, d)
  updated_by is_positive id (some req) s d =
      let (r, d') = update_cached_product products redis json is_positive id req s d in
      elim r [ err e ↦ (error (product_code e), s, d') | ok (p, s') ↦ (success p, s', d') ]

  unfoldable pub handle_update_product :
      (F → Bool) → String → Option (UpdateProductRequest F) → S → D → Reply (Product F) × S × D
  handle_update_product is_positive text body s d = elim (parse_uint text) [
    | none ↦ (bad_request, s, d)
    | some id ↦ updated_by is_positive id body s d
  ]

  unfoldable pub handle_delete_product : String → S → D → Reply (Unit {0}) × S × D
  handle_delete_product text s d = elim (parse_uint text) [
    | none ↦ (bad_request, s, d)
    | some id ↦
        let (r, d') = delete_cached_product products redis json id s d in
        elim r [ err e ↦ (error (product_code e), s, d') | ok s' ↦ (success_nil, s', d') ]
  ]
