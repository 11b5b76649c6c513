-- ===== src/SyncTable/Laws.antt =====
-- Which views are left after the clean-up.
use push_snode.Base.{
  filter-filter, filter-true, ℕ, String, ◌≡◌, ap, sym, ◌∙◌, not, List, [], ◌∷◌, filter, arith, ◌==◌,
  ==_iff, string_eq,
}
use push_snode.Base.JsSet.{has}
use push_snode.SyncTable.{
  SyncDb, drop_views, drop_view, drop_view_row_from_storage_sync_table, view_names, is_expired,
  is_synced, drop_synced_tables, drop_expired_tables,
}

-- What is left when the views of the names are gone.
abbrev pub without_views : List String → SyncDb → SyncDb
without_views names db = record db {
  storage_sync_info = filter (λ row. not (has names row.view_name)) db.storage_sync_info;
  views = filter (λ v. not (has names v.0)) db.views;
}

drop_views_lem : (names : List String) (db : SyncDb) → drop_views names db ≡ without_views names db
unfolding drop_views has
drop_views_lem [] db =
    ap (λ rows. record db { storage_sync_info = rows }) (sym (filter-true db.storage_sync_info))
    ∙ ap (λ views. record (without_views [] db) { views = views }) (sym (filter-true db.views))
drop_views_lem (name ∷ names) db =
    let next : SyncDb = drop_view_row_from_storage_sync_table name (drop_view name db) in
    drop_views_lem names next
    ∙ ap (λ rows. record (without_views names next) { storage_sync_info = rows })
        (filter-filter (λ row. not (row.view_name == name)) (λ row. not (has names row.view_name))
          (λ row. not (has (name ∷ names) row.view_name)) db.storage_sync_info
          (λ row. ground (arith, ==_iff name row.view_name, ==_iff row.view_name name)))
    ∙ ap (λ views. record (without_views (name ∷ names) db) { views = views })
        (filter-filter (λ v. not (v.0 == name)) (λ v. not (has names v.0))
          (λ v. not (has (name ∷ names) v.0)) db.views
          (λ v. ground (arith, ==_iff name v.0, ==_iff v.0 name)))

-- The clean-ups delete the rows and the tables of exactly the views that have an expired row, and of
-- those that have a synced row, all at once as it were; with such a row every row of its name goes.
pub drop_tables_lem :
    (current_time : ℕ) (db : SyncDb)
    → (drop_expired_tables current_time db
        ≡ without_views (view_names (is_expired current_time) db) db)
      × (drop_synced_tables db ≡ without_views (view_names is_synced db) db)
unfolding drop_expired_tables drop_synced_tables
drop_tables_lem current_time db = (
  drop_views_lem (view_names (is_expired current_time) db) db,
  drop_views_lem (view_names is_synced db) db,
)
