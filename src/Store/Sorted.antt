-- ===== src/Store/Sorted.antt =====
-- A bucket as an ascending list, on which the operations run in examples.
use goraphdb.Common.{◌≡◌, refl, sym, ap, ◌∙◌, List, []}
use goraphdb.Common.Results.{Result, ok, err}
use goraphdb.Types.{Bytes}
use goraphdb.Store.{Bolt, BoltLaws, IsAscending}
use goraphdb.Store.Entries.{
  erase_entry, erase_entry-IsAscending, find-erase_entry, find-insert_entry, find_entry, found_mem,
  insert_entry, insert_entry-IsAscending, mem_found, seek_entry, seek_suffix,
}

pub record SortedBucket : Type 0 where
  pub entries : List (Bytes × Bytes)
  pub ascending : IsAscending entries

abbrev pub empty_bucket : SortedBucket
empty_bucket = record { entries = []; ascending = tt }

unfoldable pub inserted : Bytes → Bytes → SortedBucket → SortedBucket
unfolding insert_entry
inserted k v b = record {
  entries = insert_entry k v b.entries;
  ascending = insert_entry-IsAscending k v b.entries b.ascending;
}

sorted_store : Bytes → Bytes → SortedBucket → Result SortedBucket
unfolding inserted
sorted_store k v b = ok (inserted k v b)

sorted_erase : Bytes → SortedBucket → SortedBucket
sorted_erase k b = record {
  entries = erase_entry k b.entries;
  ascending = erase_entry-IsAscending k b.entries b.ascending;
}

unfoldable pub sorted_bolt : Bolt SortedBucket
unfolding sorted_store sorted_erase find_entry insert_entry erase_entry seek_entry
sorted_bolt = record {
  fetch = λ k b. find_entry k b.entries;
  store = sorted_store;
  erase = sorted_erase;
  seek = λ p b. seek_entry p b.entries;
}

stored_entries :
    (k v : Bytes) (b b' : SortedBucket)
    → sorted_store k v b ≡ ok b'
    → b'.entries ≡ insert_entry k v b.entries
unfolding sorted_store
stored_entries k v b b' h = sym (ap entries_of h)
  where
    entries_of : Result SortedBucket → List (Bytes × Bytes)
    entries_of (ok c) = c.entries
    entries_of (err e) = []

pub sorted_bolt-BoltLaws : BoltLaws sorted_bolt
unfolding sorted_bolt sorted_store sorted_erase
sorted_bolt-BoltLaws = record {
  fetch-store = λ k j v b b' h.
      ap (find_entry j) (stored_entries k v b b' h) ∙ find-insert_entry k j v b.entries;
  fetch-erase = λ k j b. find-erase_entry k j b.entries;
  store_fits = λ k v b some_key short_key short_value. (inserted k v b, refl);
  seek-IsAscending = λ p b. (seek_suffix p (p, p) b.entries b.ascending).0;
  mem-seek = λ p k v b.
      let (up, (to_list, from_list)) = seek_suffix p (k, v) b.entries b.ascending in
      (
        (λ m. let (n, l) = to_list m in (found_mem k v b.entries b.ascending n, l)),
        λ (f, l). from_list (mem_found k v b.entries f, l),
      );
}
