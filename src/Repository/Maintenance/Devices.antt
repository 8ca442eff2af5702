-- ===== src/Repository/Maintenance/Devices.antt =====
-- What `pruneUnreferencedDevices` of repository.ts deletes and what it leaves.
use author.Common.{
  ◌≡◌, refl, ap, ◌∙◌, Bool, not, ◌&&◌, ◌||◌, none, List, [], ◌∷◌, Text, lit, text_eq, text_Eq,
  keep_if, for_each, any, if◌then◌else◌, arith, Bool-cases, inl, inr,
}
use author.Common.Table.{Table, get, get-remove}
use author.Repository.Store.{Key, EntityKey, DeviceRow, Db, key_eq, key_eq_iff, key_Eq}
use author.Repository.Log.{record_entity_change}
use author.Repository.Deletes.{device_is_referenced}
use author.Repository.Consistency.{IsConsistent}
use author.Repository.Maintenance.{drop_unreferenced, is_unreferenced, prune_unreferenced_devices}
use author.Repository.Maintenance.Consistency.{prune_unreferenced_devices-IsConsistent}

abbrev has_key : Key → Key × DeviceRow → Bool
has_key k (j, row) = key_eq k j

get-drop_unreferenced :
    (logged : EntityKey → Text) (db : Db) (k : Key) (row : DeviceRow) (j : Key)
    → get (drop_unreferenced logged db (k, row)).devices j
      ≡ (if key_eq j k then none else get db.devices j)
unfolding drop_unreferenced record_entity_change
get-drop_unreferenced logged db k row j = get-remove db.devices k j

get-drop_all :
    (logged : EntityKey → Text) (rows : Table Key DeviceRow) (db : Db) (k : Key)
    → get (for_each (drop_unreferenced logged) db rows).devices k
      ≡ (if any (has_key k) rows then none else get db.devices k)
get-drop_all logged [] db k = refl
get-drop_all logged ((j, row) ∷ rows) db k = ground (
  arith,
  get-drop_all logged rows (drop_unreferenced logged db (j, row)) k,
  get-drop_unreferenced logged db j row k,
)

has_key-get :
    (t : Table Key DeviceRow) (k : Key) → (if any (has_key k) t then none else get t k) ≡ none
unfolding get
has_key-get [] k = refl
has_key-get ((j, row) ∷ t) k = ground (arith, has_key-get t k, key_eq_iff j k, key_eq_iff k j)

any-keep_if :
    {A : Type 0} (h p : A → Bool) (x : A) (xs : List A)
    → any h (keep_if p (x ∷ xs)) ≡ (p x && h x || any h (keep_if p xs))
any-keep_if h p x xs = ground (arith)

-- A choice of rows by their keys alone.
module _ (p : Key × DeviceRow → Bool) (q : Key → Bool)
    (by_key : (k : Key) (row : DeviceRow) → p (k, row) ≡ q k) where
  any-has_key :
      (t : Table Key DeviceRow) (k : Key)
      → any (has_key k) (keep_if p t) ≡ (q k && any (has_key k) t)
  any-has_key [] k = ground (arith)
  any-has_key ((j, row) ∷ t) k =
      any-keep_if (has_key k) p (j, row) t ∙ elim (Bool-cases (key_eq k j)) [
        | inl same ↦
            let e : q k ≡ q j = ap q ((key_eq_iff k j).0 same) in
            ground (arith, by_key j row, any-has_key t k)
        | inr other ↦ ground (arith, any-has_key t k)
      ]

  get-kept :
      (t : Table Key DeviceRow) (k : Key)
      → (if any (has_key k) (keep_if p t) then none else get t k) ≡ (if q k then none else get t k)
  get-kept t k = ground (arith, any-has_key t k, has_key-get t k)

-- `pruneUnreferencedDevices` keeps a consistent store consistent, and deletes exactly the devices that no
-- note, notebook, session or trusted device of their owner refers to, `server-db-mirror` excepted: every
-- other device has its row as before.
pub prune_unreferenced_devices_lem :
    (logged : EntityKey → Text) (db : Db)
    → IsConsistent db
    → IsConsistent (prune_unreferenced_devices logged db).1
      × ((k : Key)
          → get (prune_unreferenced_devices logged db).1.devices k ≡ (
              if text_eq k.id (lit "server-db-mirror") || device_is_referenced db k.id k.owner
              then get db.devices k
              else none))
unfolding prune_unreferenced_devices
prune_unreferenced_devices_lem logged db c = (
  prune_unreferenced_devices-IsConsistent logged db c,
  λ k.
      get-drop_all logged (keep_if (is_unreferenced db) db.devices) db k
      ∙ get-kept (is_unreferenced db)
          (λ j.
            not (text_eq j.id (lit "server-db-mirror"))
            && not (device_is_referenced db j.id j.owner))
          (λ j row. refl) db.devices k
      ∙ ground (arith),
)
