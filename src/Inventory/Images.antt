-- ===== src/Inventory/Images.antt =====
-- Templates and ISO images: the agents' listings, and a template that an export has just made. Ids that
-- agents send are taken to be unique, as the primary key demands.
use open_v_center_backend.Prelude.{
  ℕ, suc, String, Bool, none, some, List, [], ◌∷◌, ◌++◌, ◌==◌, delete_where, update_where, find,
  str_eq, ◌≡◌, refl, ap, All, rows_where, Bool-cases, inl, inr, true, arith,
}
use open_v_center_backend.Json.{Dict, get, as_text}
use open_v_center_backend.Models.{Db}
use open_v_center_backend.Models.Records.{Template, Iso}
use open_v_center_backend.Inventory.Values.{
  Python, field, text_or_empty, text_or_none, or_zero, number, dict_list, parse_dt,
}

-- `int(item.get(k) or 0)`, where the item has a number or nothing.
abbrev pub count_of : String → Dict → ℕ
count_of k item = or_zero (number (get k item))

-- _template_row_fields, as the row with the id.
unfoldable pub template_row : Python → String → ℕ → Dict → Template
unfolding field
template_row py id host_id item = record {
  id = id;
  host_id = host_id;
  name = text_or_empty (get "name" item);
  path = text_or_empty (get "path" item);
  size_bytes = count_of "sizeBytes" item;
  disk_size_bytes = count_of "diskSizeBytes" item;
  notes = text_or_none (get "notes" item);
  cpu_count = count_of "cpuCount" item;
  memory_mb = count_of "memoryMb" item;
  guest_os = as_text (get "guestOs" item);
  image_created_at = parse_dt py (field "createdAt" item);
}

-- `item.get("id") or new_id()`
abbrev pub id_or_new : String → Dict → String
id_or_new new item = elim (text_or_none (get "id" item)) [ none ↦ new | some i ↦ i ]

-- _upsert_template: `new` is the id that new_id() draws.
unfoldable pub upsert_template : Python → String → ℕ → Dict → List Template → List Template
unfolding template_row
upsert_template py new host_id item rows =
    let tid = id_or_new new item in
    elim (find (λ t. str_eq t.id tid) rows) [
      | none ↦ rows ++ template_row py tid host_id item ∷ []
      | some t ↦ update_where (λ r. str_eq r.id tid) (λ r. template_row py tid host_id item) rows
    ]

-- The rows of a listing, with the ids that new_id() would draw by position.
unfoldable pub template_rows : Python → (ℕ → String) → ℕ → ℕ → List Dict → List Template
unfolding template_row
template_rows py new i host_id [] = []
template_rows py new i host_id (item ∷ items) =
    template_row py (id_or_new (new i) item) host_id item
    ∷ template_rows py new (suc i) host_id items

-- apply_template_inventory
unfoldable pub apply_template_inventory : Python → (ℕ → String) → ℕ → Dict → Db → Db
unfolding template_rows
apply_template_inventory py new host_id payload db = record db {
  templates =
      delete_where (λ t. t.host_id == host_id) db.templates
      ++ template_rows py new 0 host_id (dict_list (get "items" payload));
}

unfoldable pub iso_rows : (ℕ → ℕ) → ℕ → ℕ → List Dict → List Iso
iso_rows new i host_id [] = []
iso_rows new i host_id (item ∷ items) =
    record {
      id = new i;
      host_id = host_id;
      name = text_or_empty (get "name" item);
      path = text_or_empty (get "path" item);
      size_bytes = count_of "sizeBytes" item;
      checksum = text_or_none (get "checksum" item);
    }
    ∷ iso_rows new (suc i) host_id items

-- apply_iso_inventory: always fresh ids.
unfoldable pub apply_iso_inventory : (ℕ → ℕ) → ℕ → Dict → Db → Db
unfolding iso_rows
apply_iso_inventory new host_id payload db = record db {
  isos =
      delete_where (λ t. t.host_id == host_id) db.isos
      ++ iso_rows new 0 host_id (dict_list (get "items" payload));
}

-- The rows of a host are replaced by rows of the host.
replaced-same {ℓ} :
    {A : Type ℓ} (p : A → Bool) (xs new : List A)
    → All (λ x. p x ≡ true) new
    → rows_where p (delete_where p xs ++ new) ≡ new
unfolding rows_where delete_where
replaced-same p [] [] h = refl
replaced-same p [] (y ∷ new) h = rw (h.0) (ap (◌∷◌ y) (replaced-same p [] new h.1))
replaced-same p (x ∷ xs) new h = elim (Bool-cases (p x)) [
  | inl e ↦ rw e (replaced-same p xs new h)
  | inr e ↦ rw e (rw e (replaced-same p xs new h))
]

replaced-others {ℓ} :
    {A : Type ℓ} (p : A → Bool) (xs new : List A)
    → All (λ x. p x ≡ true) new
    → delete_where p (delete_where p xs ++ new) ≡ delete_where p xs
unfolding delete_where
replaced-others p [] [] h = refl
replaced-others p [] (y ∷ new) h = rw (h.0) (replaced-others p [] new h.1)
replaced-others p (x ∷ xs) new h = elim (Bool-cases (p x)) [
  | inl e ↦ rw e (replaced-others p xs new h)
  | inr e ↦ rw e (rw e (ap (◌∷◌ x) (replaced-others p xs new h)))
]

template_rows-here :
    (py : Python) (new : ℕ → String) (i host_id : ℕ) (items : List Dict)
    → All (λ t. (t.host_id == host_id) ≡ true) (template_rows py new i host_id items)
unfolding template_rows template_row
template_rows-here py new i host_id [] = tt
template_rows-here py new i host_id (item ∷ items) =
    (ground arith, template_rows-here py new (suc i) host_id items)

iso_rows-here :
    (new : ℕ → ℕ) (i host_id : ℕ) (items : List Dict)
    → All (λ t. (t.host_id == host_id) ≡ true) (iso_rows new i host_id items)
unfolding iso_rows
iso_rows-here new i host_id [] = tt
iso_rows-here new i host_id (item ∷ items) = (ground arith, iso_rows-here new (suc i) host_id items)

-- After a template listing of a host, its templates are exactly the rows of the listing, and the
-- templates of the other hosts are as they were.
pub listing_replaces :
    (py : Python) (new : ℕ → String) (host_id : ℕ) (payload : Dict) (db : Db)
    → let db' = apply_template_inventory py new host_id payload db in
      (rows_where (λ t. t.host_id == host_id) db'.templates
        ≡ template_rows py new 0 host_id (dict_list (get "items" payload)))
      × (delete_where (λ t. t.host_id == host_id) db'.templates
          ≡ delete_where (λ t. t.host_id == host_id) db.templates)
unfolding apply_template_inventory
listing_replaces py new host_id payload db =
    let items = dict_list (get "items" payload) in
    let here = template_rows-here py new 0 host_id items in
    (
      replaced-same (λ t. t.host_id == host_id) db.templates (template_rows py new 0 host_id items)
          here,
      replaced-others (λ t. t.host_id == host_id) db.templates
          (template_rows py new 0 host_id items) here,
    )

-- The same for ISO images.
pub iso_listing_replaces :
    (new : ℕ → ℕ) (host_id : ℕ) (payload : Dict) (db : Db)
    → let db' = apply_iso_inventory new host_id payload db in
      (rows_where (λ t. t.host_id == host_id) db'.isos
        ≡ iso_rows new 0 host_id (dict_list (get "items" payload)))
      × (delete_where (λ t. t.host_id == host_id) db'.isos
          ≡ delete_where (λ t. t.host_id == host_id) db.isos)
unfolding apply_iso_inventory
iso_listing_replaces new host_id payload db =
    let items = dict_list (get "items" payload) in
    let here = iso_rows-here new 0 host_id items in
    (
      replaced-same (λ t. t.host_id == host_id) db.isos (iso_rows new 0 host_id items) here,
      replaced-others (λ t. t.host_id == host_id) db.isos (iso_rows new 0 host_id items) here,
    )
