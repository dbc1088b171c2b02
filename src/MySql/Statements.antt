-- ===== src/MySql/Statements.antt =====
-- rust/src/mysql.rs: the statements on the catalogue, letter by letter.
use fsspec_db.Prelude.Text.{Text, codes}

abbrev pub relation_sql : Text
relation_sql =
    codes
      "SELECT\n                table_name AS table_name,\n                table_type AS table_type,\n                table_rows AS table_rows\n             FROM information_schema.tables\n             WHERE table_schema = ?\n               AND table_name = ?\n               AND table_type IN ('BASE TABLE', 'VIEW')"

abbrev pub columns_sql : Text
columns_sql =
    codes
      "SELECT\n                column_name AS column_name,\n                column_type AS column_type,\n                is_nullable AS is_nullable,\n                column_default AS column_default,\n                ordinal_position AS ordinal_position,\n                column_key AS column_key\n             FROM information_schema.columns\n             WHERE table_schema = ? AND table_name = ?\n             ORDER BY ordinal_position"

abbrev pub schemas_sql : Text
schemas_sql =
    codes
      "SELECT schema_name AS schema_name\n                 FROM information_schema.schemata\n                 WHERE schema_name NOT IN ('information_schema', 'mysql', 'performance_schema', 'sys')\n                 ORDER BY schema_name"

abbrev pub relations_sql : Text
relations_sql =
    codes
      "SELECT\n                    table_name AS table_name,\n                    table_type AS table_type,\n                    table_rows AS table_rows\n                 FROM information_schema.tables\n                 WHERE table_schema = ?\n                   AND table_type IN ('BASE TABLE', 'VIEW')\n                 ORDER BY table_name"

abbrev pub indexes_sql : Text
indexes_sql =
    codes
      "SELECT\n                    index_name AS index_name,\n                    MIN(non_unique) AS non_unique,\n                    MAX(index_type) AS index_type,\n                    GROUP_CONCAT(column_name ORDER BY seq_in_index SEPARATOR ',') AS columns\n                 FROM information_schema.statistics\n                 WHERE table_schema = ? AND table_name = ?\n                 GROUP BY index_name\n                 ORDER BY index_name"

abbrev pub constraints_sql : Text
constraints_sql =
    codes
      "SELECT\n                    tc.constraint_name AS constraint_name,\n                    tc.constraint_type AS constraint_type,\n                    COALESCE(GROUP_CONCAT(kcu.column_name ORDER BY kcu.ordinal_position SEPARATOR ','), '')\n                        AS columns,\n                    MAX(\n                        CASE\n                            WHEN kcu.referenced_table_name IS NOT NULL\n                            THEN CONCAT(kcu.referenced_table_schema, '.', kcu.referenced_table_name)\n                            ELSE NULL\n                        END\n                    ) AS referenced_relation,\n                    MAX(cc.check_clause) AS check_clause\n                 FROM information_schema.table_constraints tc\n                 LEFT JOIN information_schema.key_column_usage kcu\n                   ON tc.constraint_schema = kcu.constraint_schema\n                  AND tc.constraint_name = kcu.constraint_name\n                  AND tc.table_schema = kcu.table_schema\n                  AND tc.table_name = kcu.table_name\n                 LEFT JOIN information_schema.check_constraints cc\n                   ON tc.constraint_schema = cc.constraint_schema\n                  AND tc.constraint_name = cc.constraint_name\n                 WHERE tc.table_schema = ? AND tc.table_name = ?\n                 GROUP BY tc.constraint_name, tc.constraint_type\n                 ORDER BY tc.constraint_name"

abbrev pub view_sql : Text
view_sql =
    codes
      "SELECT view_definition AS view_definition\n                 FROM information_schema.views\n                 WHERE table_schema = ? AND table_name = ?"
