-- ===== src/Postgres/Statements.antt =====
-- rust/src/postgres.rs: the statements on the catalogue, letter by letter.
use fsspec_db.Prelude.Text.{Text, codes}

abbrev pub relation_sql : Text
relation_sql =
    codes
      "SELECT table_name, table_type\n             FROM information_schema.tables\n             WHERE table_schema = $1\n               AND table_name = $2\n               AND table_type IN ('BASE TABLE', 'VIEW')"

abbrev pub columns_sql : Text
columns_sql =
    codes
      "SELECT column_name, data_type, udt_name, is_nullable, column_default, ordinal_position\n             FROM information_schema.columns\n             WHERE table_schema = $1 AND table_name = $2\n             ORDER BY ordinal_position"

abbrev pub schemas_sql : Text
schemas_sql =
    codes
      "SELECT schema_name\n                 FROM information_schema.schemata\n                 WHERE schema_name NOT IN ('pg_catalog', 'information_schema')\n                   AND schema_name NOT LIKE 'pg_toast%'\n                 ORDER BY schema_name"

abbrev pub relations_sql : Text
relations_sql =
    codes
      "SELECT\n                    t.table_name,\n                    t.table_type,\n                    c.reltuples::bigint AS row_count\n                 FROM information_schema.tables t\n                 LEFT JOIN pg_namespace n\n                   ON n.nspname = t.table_schema\n                 LEFT JOIN pg_class c\n                   ON c.relnamespace = n.oid\n                  AND c.relname = t.table_name\n                 WHERE t.table_schema = $1\n                   AND t.table_type IN ('BASE TABLE', 'VIEW')\n                 ORDER BY t.table_name"

abbrev pub indexes_sql : Text
indexes_sql =
    codes
      "SELECT\n                    i.relname AS name,\n                    ix.indisunique AS is_unique,\n                    am.amname AS method,\n                    COALESCE(\n                        string_agg(a.attname, ',' ORDER BY ord.ordinality)\n                            FILTER (WHERE a.attname IS NOT NULL),\n                        ''\n                    ) AS columns\n                 FROM pg_class t\n                 JOIN pg_namespace n ON n.oid = t.relnamespace\n                 JOIN pg_index ix ON ix.indrelid = t.oid\n                 JOIN pg_class i ON i.oid = ix.indexrelid\n                 JOIN pg_am am ON am.oid = i.relam\n                 LEFT JOIN LATERAL unnest(ix.indkey) WITH ORDINALITY AS ord(attnum, ordinality)\n                    ON TRUE\n                 LEFT JOIN pg_attribute a ON a.attrelid = t.oid AND a.attnum = ord.attnum\n                 WHERE n.nspname = $1 AND t.relname = $2\n                 GROUP BY i.relname, ix.indisunique, am.amname\n                 ORDER BY i.relname"

abbrev pub constraints_sql : Text
constraints_sql =
    codes
      "SELECT\n                    con.conname AS constraint_name,\n                    con.contype AS constraint_type,\n                    COALESCE(string_agg(att.attname, ',' ORDER BY ord.ordinality), '') AS columns,\n                    CASE\n                        WHEN con.confrelid <> 0 THEN ref_ns.nspname || '.' || ref_rel.relname\n                        ELSE NULL\n                    END AS references,\n                    CASE\n                        WHEN con.contype = 'c' THEN pg_get_constraintdef(con.oid, true)\n                        ELSE NULL\n                    END AS check_clause\n                 FROM pg_constraint con\n                 JOIN pg_class rel ON rel.oid = con.conrelid\n                 JOIN pg_namespace ns ON ns.oid = rel.relnamespace\n                 LEFT JOIN LATERAL unnest(con.conkey) WITH ORDINALITY AS ord(attnum, ordinality)\n                    ON TRUE\n                 LEFT JOIN pg_attribute att ON att.attrelid = rel.oid AND att.attnum = ord.attnum\n                 LEFT JOIN pg_class ref_rel ON ref_rel.oid = con.confrelid\n                 LEFT JOIN pg_namespace ref_ns ON ref_ns.oid = ref_rel.relnamespace\n                 WHERE ns.nspname = $1\n                   AND rel.relname = $2\n                   AND con.contype IN ('p', 'f', 'u', 'c')\n                 GROUP BY con.oid, con.conname, con.contype, ref_ns.nspname, ref_rel.relname\n                 ORDER BY con.conname"

abbrev pub view_sql : Text
view_sql =
    codes
      "SELECT view_definition\n                 FROM information_schema.views\n                 WHERE table_schema = $1 AND table_name = $2"

abbrev pub primary_keys_sql : Text
primary_keys_sql =
    codes
      "SELECT kcu.column_name\n         FROM information_schema.table_constraints tc\n         JOIN information_schema.key_column_usage kcu\n           ON tc.constraint_catalog = kcu.constraint_catalog\n          AND tc.constraint_schema = kcu.constraint_schema\n          AND tc.constraint_name = kcu.constraint_name\n         WHERE tc.table_schema = $1\n           AND tc.table_name = $2\n           AND tc.constraint_type = 'PRIMARY KEY'\n         ORDER BY kcu.ordinal_position"

abbrev pub estimate_sql : Text
estimate_sql =
    codes
      "SELECT c.reltuples::bigint AS estimate\n         FROM pg_class c\n         JOIN pg_namespace n ON n.oid = c.relnamespace\n         WHERE n.nspname = $1 AND c.relname = $2"
