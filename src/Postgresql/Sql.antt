-- ===== src/Postgresql/Sql.antt =====
-- The SQL texts of pkg/db/postgresql/postgresql.go, white space included.
use hub_of_hubs_status_trans.Base.{String, str_append}

-- `fmt.Sprintf("<before>%s.%s<after>", schema, tableName)`.
at_table : String → String → String → String → String
at_table before after schema table_name =
    str_append before (str_append schema (str_append "." (str_append table_name after)))

unfoldable pub managed_clusters_sql : String → String → String
unfolding at_table
managed_clusters_sql =
    at_table
      "SELECT payload->'metadata'->>'name',\n\t\tpayload->'metadata'->>'resourceVersion' FROM "
      " WHERE leaf_hub_name=$1"

unfoldable pub compliance_sql : String → String → String
unfolding at_table
compliance_sql = at_table "SELECT id,cluster_name FROM " " WHERE leaf_hub_name=$1"

unfoldable pub non_compliant_sql : String → String → String
unfolding at_table
non_compliant_sql =
    at_table "SELECT id,cluster_name,compliance FROM "
      " WHERE leaf_hub_name=$1\n\t\t\t AND compliance!='compliant'"

unfoldable pub policy_ids_sql : String → String → String
unfolding at_table
policy_ids_sql = at_table "SELECT DISTINCT(policy_id) FROM " " WHERE leaf_hub_name=$1"

unfoldable pub exists_sql : String → String → String
unfolding at_table
exists_sql = at_table "SELECT EXISTS(SELECT 1 from " " WHERE leaf_hub_name=$1 AND \n\t\t\tid=$2)"

unfoldable pub update_sql : String → String → String
unfolding at_table
update_sql =
    at_table "UPDATE "
      " SET applied_clusters=$1,non_compliant_clusters=$2\n\t\t\t WHERE leaf_hub_name=$3 AND id=$4"

unfoldable pub insert_sql : String → String → String
unfolding at_table
insert_sql =
    at_table "INSERT INTO "
      " (id,leaf_hub_name,applied_clusters,\n\t\t\tnon_compliant_clusters) values($1, $2, $3, $4)"

unfoldable pub delete_sql : String → String → String
unfolding at_table
delete_sql = at_table "DELETE from " " WHERE leaf_hub_name=$1 AND policy_id=$2"
