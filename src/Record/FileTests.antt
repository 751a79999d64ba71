-- ===== src/Record/FileTests.antt =====
-- A record file with one small page.
use miniob4cqu_db_exp.Common.{
  ℕ, ◌≡◌, refl, sym, ap, ◌∙◌, subst, true, ◌⊎◌, inl, inr, none, some, [], ◌∷◌, ◌==◌, ==_iff,
  Bool-cases, Rc, arith, if◌then◌else◌,
}
use miniob4cqu_db_exp.Bitmap.{get_bit}
use miniob4cqu_db_exp.Bitmap.Bits.{get_bit-set_bit}
use miniob4cqu_db_exp.BufferPool.{Header, with_page}
use miniob4cqu_db_exp.BufferPool.Valid
use miniob4cqu_db_exp.BufferPool.Valid.{no_pages, no_pages-IsValid, extended-IsValid}
use miniob4cqu_db_exp.Record.Page.{Frame}
use miniob4cqu_db_exp.Record.View.{IsValid}
use miniob4cqu_db_exp.Record.File
use miniob4cqu_db_exp.Record.File.{RecordFile}
use miniob4cqu_db_exp.Record.FileView
use miniob4cqu_db_exp.Record.FileView.{view_at, Same}
use miniob4cqu_db_exp.Record.FileDelete.{Removed, delete_record-Removed}
use miniob4cqu_db_exp.Record.Tests.{small_page, small-IsValid}

-- A file with the header page and one page of records.
abbrev two_pages : Header
two_pages =
    with_page 1 (record (with_page 0 (record no_pages { page_count = 1; lsn = 1 })) {
      page_count = 2;
      lsn = 2;
    })

two_pages-IsValid : Valid.IsValid two_pages
two_pages-IsValid =
    extended-IsValid (with_page 0 (record no_pages { page_count = 1; lsn = 1 })) 2
      (extended-IsValid no_pages 1 no_pages-IsValid (omega arith)) (omega arith)

one_marked : get_bit two_pages.bitmap 1 ≡ true
one_marked =
    let before = extended-IsValid no_pages 1 no_pages-IsValid (omega arith) in
    get_bit-set_bit (with_page 0 (record no_pages { page_count = 1; lsn = 1 })).bitmap before.bits 1
      (omega (arith, before.room)) 1

-- Its page has a free slot.
abbrev small_file : RecordFile
small_file = record {
  pages = record {
    pool = record { header = two_pages; log = []; next_lsn = 3 };
    content = λ p. if p == 1 then some small_page else none;
    page_error = λ p. Rc.internal;
  };
  free_pages = 1 ∷ [];
  current_lsn = 4;
  entries = [];
}

only_page : (p : ℕ) (f : Frame) → small_file.pages.content p ≡ some f → (small_page ≡ f) × (1 ≡ p)
only_page p f e = elim (Bool-cases (p == 1)) [
  | inl here ↦ (ground (arith, e, here), sym ((==_iff p 1).0 here))
  | inr other ↦ absurd (ground (arith, e, other))
]

small_file-IsValid : FileView.IsValid 2 small_file
small_file-IsValid = record {
  header = two_pages-IsValid;
  errors = λ p. refl;
  page_valid = λ p f e. subst IsValid (only_page p f e).0 small-IsValid;
  page_size =
      λ p f e. subst (λ (g : Frame). g.page_header.record_real_size ≡ 2) (only_page p f e).0 refl;
  unallocated = λ p f free e.
      absurd (cc (sym one_marked ∙ ap (get_bit two_pages.bitmap) (only_page p f e).1 ∙ free));
  listed = (one_marked, tt);
}

delete_record-Removed_example :
    (file' : RecordFile) × (((view_at small_file 1 1 ≡ none)
        × (File.delete_record 1 1 small_file ≡ some (Rc.record_not_exist, file'))
        × Same small_file file'
        × FileView.IsValid 2 file')
      ⊎ ((File.delete_record 1 1 small_file ≡ some (Rc.success, file'))
          × Removed 2 small_file file' 1 1))
delete_record-Removed_example =
    delete_record-Removed 2 small_file 1 1 small_page small_file-IsValid refl (omega arith)
