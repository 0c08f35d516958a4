-- ===== src/LiteSpa/Version/Laws.antt =====
-- What a write leaves in the table.
use orcacommon.Common.{◌≡◌, if◌then◌else◌, some, arith, ◌∙◌, ap}
use orcacommon.Common.Text.{Text, text_eq}
use orcacommon.LiteSpa.Cache.{lookup, insert}
use orcacommon.LiteSpa.Cache.Laws.{lookup-insert}
use orcacommon.LiteSpa.Dao.{Db, set_row}

pub set_row_inv :
    (db db' : Db) (key v : Text)
    → set_row db key v ≡ some db'
    → db' ≡ record db { rows = insert key v db.rows }
unfolding set_row
set_row_inv db db' key v h = ground arith

pub lookup-set_row :
    (db db' : Db) (key v j : Text)
    → set_row db key v ≡ some db'
    → lookup j db'.rows ≡ (if text_eq key j then some v else lookup j db.rows)
lookup-set_row db db' key v j h =
    ap (λ d. lookup j d.rows) (set_row_inv db db' key v h) ∙ lookup-insert key j v db.rows
