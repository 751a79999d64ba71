-- ===== src/Record/FileDelete.antt =====
-- `delete_record` of RecordFileHandler on a page that can be read.
use miniob4cqu_db_exp.Common.{
  ℕ, true, ◌<◌, ◌≡◌, ◌≢◌, refl, sym, ap, ◌∙◌, ◌⊎◌, inl, inr, ◌&&◌, none, some, Rc, ◌==◌, ==_iff,
  if◌then◌else◌, Bool-cases,
}
use miniob4cqu_db_exp.Bitmap.{get_bit}
use miniob4cqu_db_exp.Record.Page.{Frame}
use miniob4cqu_db_exp.Record.Log.{Handler}
use miniob4cqu_db_exp.Record.View.{view}
use miniob4cqu_db_exp.Record.File.{RecordFile, open_page, close_page, add_free}
use miniob4cqu_db_exp.Record.Change.{delete_record_lem}
use miniob4cqu_db_exp.Record.File.{delete_record}
use miniob4cqu_db_exp.Record.FileView.{
  IsValid, Same, view_at, view_at-page, view_at-close, close_page-IsValid, add_free-All,
}

-- A record is taken out, and all others are as they were.
pub record Removed (size : ℕ) (file file' : RecordFile) (p i : ℕ) : Type 0 where
  pub was_taken : view_at file p i ≢ none
  pub views : (q j : ℕ) → view_at file' q j ≡ (if p == q && i == j then none else view_at file q j)
  pub valid : IsValid size file'

removed_views :
    (file : RecordFile) (p : ℕ) (f : Frame)
    → file.pages.content p ≡ some f
    → (q j i : ℕ) (h' : Handler) → view h'.frame j ≡ (if i == j then none else view f j)
    → (if p == q then view h'.frame j else view_at file q j)
      ≡ (if p == q && i == j then none else view_at file q j)
removed_views file p f found q j i h' e = elim (Bool-cases (p == q)) [
  | inl here ↦
      rw
        (
          here,
          view_at-page file q f j (ap (file.pages.content) (sym ((==_iff p q).0 here)) ∙ found),
        )
        e
  | inr other ↦ rw other refl
]

kept_views :
    (file : RecordFile) (p : ℕ) (f : Frame)
    → file.pages.content p ≡ some f
    → (q j : ℕ) → (if p == q then view f j else view_at file q j) ≡ view_at file q j
kept_views file p f found q j = elim (Bool-cases (p == q)) [
  | inl here ↦
      rw here (
        sym (view_at-page file q f j (ap (file.pages.content) (sym ((==_iff p q).0 here)) ∙ found)))
  | inr other ↦ rw other refl
]

-- On a valid file, a page that can be read and a slot below its capacity: `delete_record` refuses
-- a free slot with RECORD_NOT_EXIST and changes no record; a taken slot it frees, and changes no
-- other record of any page. The file stays valid.
pub delete_record-Removed :
    (size : ℕ) (file : RecordFile) (p slot : ℕ) (f : Frame)
    → IsValid size file
    → file.pages.content p ≡ some f
    → slot < f.page_header.record_capacity
    → (file' : RecordFile) × (((view_at file p slot ≡ none)
          × (delete_record p slot file ≡ some (Rc.record_not_exist, file'))
          × Same file file'
          × IsValid size file')
        ⊎ ((delete_record p slot file ≡ some (Rc.success, file')) × Removed size file file' p slot))
unfolding delete_record open_page view_at
delete_record-Removed size file p slot f v found inside =
    elim (delete_record_lem slot (open_page file f) (v.page_valid p f found) inside) [
      | inl (free, e) ↦ (
        close_page p (open_page file f) file,
        inl (
          view_at-page file p f slot found ∙ free,
          rw (found, e, delete_record) refl,
          λ q j.
              view_at-close file p f (open_page file f) q j found ∙ kept_views file p f found q j,
          close_page-IsValid size file p f (open_page file f) v found (v.page_valid p f found)
              (v.page_size p f found) (λ free. v.unallocated p f free found),
        ),
      )
      | inr (h', taken, e, frees, logs) ↦
          let closed = close_page p h' file in
          let w =
            close_page-IsValid size file p f h' v found frees.valid
              (frees.real_size ∙ v.page_size p f found)
              (λ unmarked. absurd (taken ((v.unallocated p f unmarked found).1 slot))) in
          (
            record closed { free_pages = add_free p closed.free_pages },
            inr (
              rw (found, e, delete_record) refl,
              record {
                was_taken =
                    λ none_there. taken (sym (view_at-page file p f slot found) ∙ none_there);
                views = λ q j.
                    view_at-close file p f h' q j found
                    ∙ removed_views file p f found q j slot h' (frees.views j);
                valid = record {
                  header = w.header;
                  errors = w.errors;
                  page_valid = w.page_valid;
                  page_size = w.page_size;
                  unallocated = w.unallocated;
                  listed =
                      add_free-All (λ q. get_bit file.pages.pool.header.bitmap q ≡ true) p
                        file.free_pages (is_marked taken) w.listed;
                };
              },
            ),
          )
    ]
  where
    is_marked : view f slot ≢ none → get_bit file.pages.pool.header.bitmap p ≡ true
    is_marked taken = elim (Bool-cases (get_bit file.pages.pool.header.bitmap p)) [
      | inl set ↦ set
      | inr unmarked ↦ absurd (taken ((v.unallocated p f unmarked found).1 slot))
    ]
