-- ===== src/Kco.antt =====
-- The tuples of common/table.h, and the operation names of common/schema.h.
use sonic_swss_common.Prelude.{List, Bytes, codes}

-- `FieldValueTuple`
abbrev pub FieldValue : Type 0
FieldValue = Bytes × Bytes

-- `KeyOpFieldsValuesTuple`
pub record Kco : Type 0 where
  pub key : Bytes
  pub op : Bytes
  pub fvs : List FieldValue

abbrev pub set_command : Bytes
set_command = codes "SET"

abbrev pub del_command : Bytes
del_command = codes "DEL"

-- `TableMap` and `TableDump`, which hold a key once: `std::map`s.
abbrev pub TableMap : Type 0
TableMap = List (Bytes × Bytes)

abbrev pub TableDump : Type 0
TableDump = List (Bytes × TableMap)
