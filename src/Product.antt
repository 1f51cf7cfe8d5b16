-- ===== src/Product.antt =====
-- internal/product/{model,repository,service}.go: the catalogue. `F` stands for `float64`, and
-- `is_positive` for the comparison with 0. Timestamps are left out.
pub mod Cached
pub mod Deleted
pub mod Handler
use distributed_software_hom.Prelude.{
  ℕ, String, Bool, true, false, ◌≡◌, refl, Option, none, some, List, ◌==◌, str_eq, if◌then◌else◌,
}
use distributed_software_hom.Result.{
  Error, Result, ok, err, ◌>>=◌, record_not_found, product_not_found, is_record_not_found,
}
use distributed_software_hom.Database.{Schema, Table}
use distributed_software_hom.Http.Paging.{Pages, find_rows}

pub record Product (F : Type 0) : Type 0 where
  pub id : ℕ
  pub name : String
  pub description : String
  pub price : F
  pub category : String
  pub image_url : String
  pub status : ℕ  -- 0=off, 1=on

pub record CreateProductRequest (F : Type 0) : Type 0 where
  pub name : String
  pub description : String
  pub price : F
  pub category : String
  pub image_url : String

pub record UpdateProductRequest (F : Type 0) : Type 0 where
  pub name : String
  pub description : String
  pub price : F
  pub category : String
  pub image_url : String
  pub status : Option ℕ

-- `if errors.Is(err, gorm.ErrRecordNotFound) { return ErrProductNotFound }; return err`
abbrev pub not_found_as_product : {A : Type 0} → Result A → Result A
not_found_as_product (ok a) = ok a
not_found_as_product (err record_not_found) = err product_not_found
not_found_as_product (err e) = err e

-- `if text != "" { old = text }`
abbrev pub unless_empty : String → String → String
unless_empty new old = if str_eq new "" then old else new

module _ {F : Type 0} where
  abbrev pub product_schema : Schema (Product F)
  product_schema = record {
    id_of = λ p. p.id;
    with_id = λ i p. record p { id = i };
    clash = λ a b. a.id == b.id;
  }

  module _ {S : Type 0} (products : Table S (Product F) product_schema) where
    unfoldable pub find_product_by_id : ℕ → S → Result (Product F)
    find_product_by_id id s = products.first (λ p. p.id == id) s

    unfoldable pub find_product_by_name : String → S → Result (Product F)
    find_product_by_name name s = products.first (λ p. str_eq p.name name) s

    unfoldable pub get_product_by_id : ℕ → S → Result (Product F)
    unfolding find_product_by_id
    get_product_by_id id s = not_found_as_product (find_product_by_id id s)

    unfoldable pub get_product_by_name : String → S → Result (Product F)
    unfolding find_product_by_name
    get_product_by_name name s = not_found_as_product (find_product_by_name name s)

    unfoldable pub get_price : ℕ → S → Result F
    unfolding find_product_by_id
    get_price id s = not_found_as_product (find_product_by_id id s) >>= λ p. ok p.price

    unfoldable pub create_product : CreateProductRequest F → S → Result (Product F × S)
    create_product req s =
        let p : Product F = record {
          id = 0;
          name = req.name;
          description = req.description;
          price = req.price;
          category = req.category;
          image_url = req.image_url;
          status = 1;
        } in
        products.create p s >>= λ (i, s'). ok (record p { id = i }, s')

    -- An empty or absent field of the request leaves the product's own.
    abbrev pub merged : (F → Bool) → UpdateProductRequest F → Product F → Product F
    merged is_positive req p = record p {
      name = unless_empty req.name p.name;
      description = unless_empty req.description p.description;
      price = if is_positive req.price then req.price else p.price;
      category = unless_empty req.category p.category;
      image_url = unless_empty req.image_url p.image_url;
      status = elim req.status [ none ↦ p.status | some n ↦ n ];
    }

    unfoldable pub update_product :
        (F → Bool) → ℕ → UpdateProductRequest F → S → Result (Product F × S)
    unfolding find_product_by_id
    update_product is_positive id req s = not_found_as_product (find_product_by_id id s) >>= λ p.
        products.save (merged is_positive req p) s

    unfoldable pub delete_product : ℕ → S → Result S
    unfolding find_product_by_id
    delete_product id s =
        not_found_as_product (find_product_by_id id s) >>= λ _. products.delete (λ p. p.id == id) s

    -- `FindAllProducts`: those on sale, newest first.
    unfoldable pub list_products : Pages products → ℕ → ℕ → S → Result (List (Product F) × ℕ)
    list_products pages page page_size s =
        find_rows products pages (λ p. p.status == 1) page page_size s
