-- ===== src/Aws/Memory.antt =====
-- A server that keeps its access entries in an association list: the laws of `EksServer` can be met.
use jit_bot.Base.{◌≡◌, List, Option, none, some, if◌then◌else◌}
use jit_bot.Base.Map.{lookup, insert, delete, lookup-insert, lookup-delete}
use jit_bot.Aws.{EksServer, AccessEntry, EntryKey, entry_eq, entry_key_eq}

abbrev pub put_or_delete :
    EntryKey → Option AccessEntry → List (EntryKey × AccessEntry) → List (EntryKey × AccessEntry)
put_or_delete key none m = delete key m
put_or_delete key (some e) m = insert key e m

pub lookup-put_or_delete :
    (i j : EntryKey) (e : Option AccessEntry) (m : List (EntryKey × AccessEntry))
    → lookup j (put_or_delete i e m) ≡ (if entry_key_eq i j then e else lookup j m)
lookup-put_or_delete i j none m = lookup-delete i j m
lookup-put_or_delete i j (some e) m = lookup-insert i j e m

abbrev pub entries : EksServer
entries = record {
  State = List (EntryKey × AccessEntry);
  entry_at = λ key m. lookup key m;
  put_entry = λ key e m. put_or_delete key e m;
  entry_at_put_entry = λ i j e m. lookup-put_or_delete i j e m;
}
