-- ===== src/Wal/Record/Kind.antt =====
-- src/wal/record.rs: the kinds of records, and the bytes that stand for them.
use rgraph.Prelude.{arith, ◌<◌, ℕ, ◌≡◌, refl, Option, none, some, ◌==◌, if◌then◌else◌}

pub data RecordType : Type 0 where
  begin commit abort page_insert page_update page_free bitmap_update checkpoint_begin checkpoint_end
        node_insert node_delete edge_insert edge_delete property_insert node_update edge_update
        property_update rdf_triple_insert rdf_triple_delete clr segment_descriptor compaction_begin
        compaction_end index_page_insert index_page_update index_page_free :
      RecordType

-- `record_type as u8`
unfoldable pub code : RecordType → ℕ
code begin = 0x01
code commit = 0x02
code abort = 0x03
code page_insert = 0x10
code page_update = 0x11
code page_free = 0x12
code bitmap_update = 0x13
code checkpoint_begin = 0x20
code checkpoint_end = 0x21
code node_insert = 0x30
code node_delete = 0x31
code edge_insert = 0x32
code edge_delete = 0x33
code property_insert = 0x34
code node_update = 0x35
code edge_update = 0x36
code property_update = 0x37
code rdf_triple_insert = 0x38
code rdf_triple_delete = 0x39
code clr = 0x40
code segment_descriptor = 0x50
code compaction_begin = 0x60
code compaction_end = 0x61
code index_page_insert = 0x70
code index_page_update = 0x71
code index_page_free = 0x72

-- The match of `WalRecord::decode` on the byte
unfoldable pub from_code : ℕ → Option RecordType
from_code c =
    if c == 0x01
    then some begin
    else if c == 0x02
    then some commit
    else if c == 0x03
    then some abort
    else if c == 0x10
    then some page_insert
    else if c == 0x11
    then some page_update
    else if c == 0x12
    then some page_free
    else if c == 0x13
    then some bitmap_update
    else if c == 0x20
    then some checkpoint_begin
    else if c == 0x21
    then some checkpoint_end
    else if c == 0x30
    then some node_insert
    else if c == 0x31
    then some node_delete
    else if c == 0x32
    then some edge_insert
    else if c == 0x33
    then some edge_delete
    else if c == 0x34
    then some property_insert
    else if c == 0x35
    then some node_update
    else if c == 0x36
    then some edge_update
    else if c == 0x37
    then some property_update
    else if c == 0x38
    then some rdf_triple_insert
    else if c == 0x39
    then some rdf_triple_delete
    else if c == 0x40
    then some clr
    else if c == 0x50
    then some segment_descriptor
    else if c == 0x60
    then some compaction_begin
    else if c == 0x61
    then some compaction_end
    else if c == 0x70
    then some index_page_insert
    else if c == 0x71
    then some index_page_update
    else if c == 0x72
    then some index_page_free
    else none

pub from_code-code : (t : RecordType) → from_code (code t) ≡ some t
unfolding from_code code
from_code-code begin = refl
from_code-code commit = refl
from_code-code abort = refl
from_code-code page_insert = refl
from_code-code page_update = refl
from_code-code page_free = refl
from_code-code bitmap_update = refl
from_code-code checkpoint_begin = refl
from_code-code checkpoint_end = refl
from_code-code node_insert = refl
from_code-code node_delete = refl
from_code-code edge_insert = refl
from_code-code edge_delete = refl
from_code-code property_insert = refl
from_code-code node_update = refl
from_code-code edge_update = refl
from_code-code property_update = refl
from_code-code rdf_triple_insert = refl
from_code-code rdf_triple_delete = refl
from_code-code clr = refl
from_code-code segment_descriptor = refl
from_code-code compaction_begin = refl
from_code-code compaction_end = refl
from_code-code index_page_insert = refl
from_code-code index_page_update = refl
from_code-code index_page_free = refl

pub code-lt : (t : RecordType) → code t < 256
unfolding code
code-lt begin = omega arith
code-lt commit = omega arith
code-lt abort = omega arith
code-lt page_insert = omega arith
code-lt page_update = omega arith
code-lt page_free = omega arith
code-lt bitmap_update = omega arith
code-lt checkpoint_begin = omega arith
code-lt checkpoint_end = omega arith
code-lt node_insert = omega arith
code-lt node_delete = omega arith
code-lt edge_insert = omega arith
code-lt edge_delete = omega arith
code-lt property_insert = omega arith
code-lt node_update = omega arith
code-lt edge_update = omega arith
code-lt property_update = omega arith
code-lt rdf_triple_insert = omega arith
code-lt rdf_triple_delete = omega arith
code-lt clr = omega arith
code-lt segment_descriptor = omega arith
code-lt compaction_begin = omega arith
code-lt compaction_end = omega arith
code-lt index_page_insert = omega arith
code-lt index_page_update = omega arith
code-lt index_page_free = omega arith
