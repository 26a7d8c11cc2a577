-- ===== src/Server/InstanceView/Laws.antt =====
-- What the view of an instance shows.
use lightai_platform.Prelude.{ℕ, String, ◌≡◌, refl, some, arith}
use lightai_platform.Prelude.Rows.{select_one}
use lightai_platform.Server.Tables.{Db, Instance, instance_is}
use lightai_platform.Server.Exec.{ok}
use lightai_platform.Server.Exec.Effects.{ReadOnly, reads}
use lightai_platform.Server.InstanceView.{model_instance, model_instance_from_row}

pub model_instance-ReadOnly : (now : ℕ) (id : String) → ReadOnly (model_instance now id)
unfolding model_instance
model_instance-ReadOnly now id = search reads

pub model_instance_found :
    (now : ℕ) (id : String) (db : Db) (i : Instance)
    → select_one (instance_is id) db.model_instances ≡ some i
    → model_instance now id db ≡ (ok (model_instance_from_row now db i), db)
unfolding model_instance
model_instance_found now id db i h = ground arith

pub row_of_view : (now : ℕ) (db : Db) (i : Instance) → (model_instance_from_row now db i).row ≡ i
unfolding model_instance_from_row
row_of_view now db i = refl
