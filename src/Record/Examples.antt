-- ===== src/Record/Examples.antt =====
-- A descriptor of record.hpp with two attributes, and a record of it.
use cppgres.Common.{◌≡◌, true, false, List, [], ◌∷◌, pos, negsuc, length}
use cppgres.Datum.Nullable.{ok}
use cppgres.Record.{
  Attribute, PgType, TupleDescriptor, Record, Edit, sets_type, sets_name, blesses, edit, edit_all,
  bless, by_name,
}
use cppgres.Record.Frozen.{edits_before_and_after}
use cppgres.Record.Lookup.{Finds, by_name-Finds}

abbrev id : Attribute
id = record {
  attname = "id";
  atttypid = 23;
  attcollation = 0;
  attlen = pos 4;
  attstorage = 1;
  attalign = 2;
  atttypmod = negsuc 0;
  attbyval = true;
  attisdropped = false;
}

abbrev label : Attribute
label = record id { attname = "label"; atttypid = 25; attlen = negsuc 0; attbyval = false }

abbrev columns : TupleDescriptor
columns = record { attrs = id ∷ label ∷ []; tdtypeid = 2249; blessed = false }

abbrev bigint : PgType
bigint = record {
  oid = 20;
  typcollation = 0;
  typlen = pos 8;
  typstorage = 1;
  typalign = 3;
  typtypmod = negsuc 0;
  typbyval = true;
}

abbrev before : List Edit
before = sets_type (pos 0) (ok bigint) ∷ sets_name (pos 7) "nowhere" ∷ []

abbrev after : List Edit
after = sets_name (pos 0) "late" ∷ []

edits_before_and_after_example :
    (edit_all (λ d. 5) (edit (λ d. 5) (edit_all (λ d. 5) columns before) blesses) after
      ≡ bless (λ d. 5) (edit_all (λ d. 5) columns before))
    × (length (edit_all (λ d. 5) columns before).attrs ≡ length columns.attrs)
edits_before_and_after_example = edits_before_and_after (λ d. 5) columns before after

abbrev one_row : Record
one_row = record {
  tupdesc = columns;
  values = record { value = 5; isnull = false } ∷ record { value = 9; isnull = true } ∷ [];
}

by_name-Finds_example : Finds one_row "label" 0 (by_name one_row "label")
by_name-Finds_example = by_name-Finds one_row "label"
