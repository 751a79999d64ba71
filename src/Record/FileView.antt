-- ===== src/Record/FileView.antt =====
-- What a record file holds, as a map from page and slot to records, and an insertion into one of its
-- pages.
use miniob4cqu_db_exp.Common.{
  ℕ, ◌≡◌, refl, sym, ap, subst, ◌∙◌, inl, inr, true, false, succeeded, All, Option-cases, ◌&&◌,
  Option, none, some, List, [], ◌∷◌, length, Rc, ◌==◌, ==_iff, if◌then◌else◌, arith, Bool-cases,
}
use miniob4cqu_db_exp.Record.Page.{Frame, is_full, bp_page_data_size}
use miniob4cqu_db_exp.Bitmap.{get_bit}
use miniob4cqu_db_exp.BufferPool.Valid
use miniob4cqu_db_exp.Record.Pool.{put}
use miniob4cqu_db_exp.Record.Log.{Handler}
use miniob4cqu_db_exp.Record.View
use miniob4cqu_db_exp.Record.View.{view}
use miniob4cqu_db_exp.Record.Insert.{Holds, insert_record_lem}
use miniob4cqu_db_exp.Record.File.{RecordFile, open_page, close_page, insert_into, add_free}

-- The record in a slot of a page.
unfoldable pub view_at : RecordFile → ℕ → ℕ → Option (List ℕ)
view_at file p slot = elim (file.pages.content p) [ none ↦ none | some f ↦ view f slot ]

-- A page without records, with all of its bytes.
abbrev pub IsUnused : Frame → Type 0
IsUnused f = (length f.area ≡ bp_page_data_size) × ((j : ℕ) → view f j ≡ none)

-- The pool's header is valid. Every page that can be read is valid and holds records of the size
-- `size`; one that is not allocated holds none and is whole, and the pages of the free list are
-- allocated. The code of a page that cannot be read is a failure.
pub record IsValid (size : ℕ) (file : RecordFile) : Type 0 where
  pub header : Valid.IsValid file.pages.pool.header
  pub errors : (p : ℕ) → succeeded (file.pages.page_error p) ≡ false
  pub page_valid : (p : ℕ) (f : Frame) → file.pages.content p ≡ some f → View.IsValid f
  pub page_size :
      (p : ℕ) (f : Frame) → file.pages.content p ≡ some f → f.page_header.record_real_size ≡ size
  pub unallocated :
      (p : ℕ) (f : Frame)
      → get_bit file.pages.pool.header.bitmap p ≡ false
      → file.pages.content p ≡ some f
      → IsUnused f
  pub listed : All (λ p. get_bit file.pages.pool.header.bitmap p ≡ true) file.free_pages

-- The same records.
abbrev pub Same : RecordFile → RecordFile → Type 0
Same file file' = (q j : ℕ) → view_at file' q j ≡ view_at file q j

-- A record in a slot that was free, and all others as they were.
pub record Stored (size : ℕ) (bytes : List ℕ) (file file' : RecordFile) (p i : ℕ) : Type 0 where
  pub was_free : view_at file p i ≡ none
  pub views :
      (q j : ℕ) → view_at file' q j ≡ (if p == q && i == j then some bytes else view_at file q j)
  pub valid : IsValid size file'

pub view_at-page :
    (file : RecordFile) (p : ℕ) (f : Frame) (j : ℕ)
    → file.pages.content p ≡ some f
    → view_at file p j ≡ view f j
unfolding view_at
view_at-page file p f j found = rw (found, view_at) refl

pub view_at-nowhere :
    (file : RecordFile) (p j : ℕ) → file.pages.content p ≡ none → view_at file p j ≡ none
unfolding view_at
view_at-nowhere file p j miss = rw (miss, view_at) refl

pages_put :
    (file : RecordFile) (p : ℕ) (f : Frame) (q : ℕ)
    → (put file.pages p f).content q ≡ (if p == q then some f else file.pages.content q)
pages_put file p f q = refl

-- A page that is not allocated holds no record.
pub view_at-unallocated :
    (size : ℕ) (file : RecordFile) (p j : ℕ)
    → IsValid size file
    → get_bit file.pages.pool.header.bitmap p ≡ false
    → view_at file p j ≡ none
unfolding view_at
view_at-unallocated size file p j v free = elim (Option-cases (file.pages.content p)) [
  | inl miss ↦ view_at-nowhere file p j miss
  | inr (f, found) ↦ view_at-page file p f j found ∙ (v.unallocated p f free found).1 j
]

pub view_at-close :
    (file : RecordFile) (p : ℕ) (old : Frame) (h : Handler) (q j : ℕ)
    → file.pages.content p ≡ some old
    → view_at (close_page p h file) q j ≡ (if p == q then view h.frame j else view_at file q j)
unfolding view_at close_page
view_at-close file p old h q j found = ground (arith, pages_put file p h.frame q)

pub close_page-IsValid :
    (size : ℕ) (file : RecordFile) (p : ℕ) (old : Frame) (h : Handler)
    → IsValid size file
    → file.pages.content p ≡ some old
    → View.IsValid h.frame
    → h.frame.page_header.record_real_size ≡ size
    → (get_bit file.pages.pool.header.bitmap p ≡ false → IsUnused h.frame)
    → IsValid size (close_page p h file)
unfolding close_page
close_page-IsValid size file p old h v found w e unused = record {
  header = v.header;
  errors = v.errors;
  listed = v.listed;
  unallocated = λ q f free g. elim (Bool-cases (p == q)) [
    | inl here ↦
        let same : h.frame ≡ f = ground (arith, pages_put file p h.frame q) in
        subst IsUnused same
          (unused (ap (get_bit file.pages.pool.header.bitmap) ((==_iff p q).0 here) ∙ free))
    | inr other ↦ v.unallocated q f free (ground (arith, pages_put file p h.frame q))
  ];
  page_valid = λ q f g. elim (Bool-cases (p == q)) [
    | inl here ↦
        let same : h.frame ≡ f = ground (arith, pages_put file p h.frame q) in
        subst View.IsValid same w
    | inr other ↦ v.page_valid q f (ground (arith, pages_put file p h.frame q))
  ];
  page_size = λ q f g. elim (Bool-cases (p == q)) [
    | inl here ↦
        let same : h.frame ≡ f = ground (arith, pages_put file p h.frame q) in
        ap (λ (x : Frame). x.page_header.record_real_size) (sym same) ∙ e
    | inr other ↦ v.page_size q f (ground (arith, pages_put file p h.frame q))
  ];
}

one_page :
    (file : RecordFile) (p : ℕ) (f : Frame)
    → file.pages.content p ≡ some f
    → (q j i : ℕ) (bytes : List ℕ) (h' : Handler) → Holds f h'.frame i bytes
    → (if p == q then view h'.frame j else view_at file q j)
      ≡ (if p == q && i == j then some bytes else view_at file q j)
unfolding view_at
one_page file p f found q j i bytes h' holds = elim (Bool-cases (p == q)) [
  | inl here ↦
      let e : file.pages.content q ≡ some f =
        ap (file.pages.content) (sym ((==_iff p q).0 here)) ∙ found in
      rw (here, view_at-page file q f j e) (holds.views j)
  | inr other ↦ rw other refl
]

pub add_free-All :
    (P : ℕ → Type 0) (p : ℕ) (pages : List ℕ) → P p → All P pages → All P (add_free p pages)
unfolding add_free
add_free-All P p [] h k = (h, tt)
add_free-All P p (q ∷ pages) h k = elim (Bool-cases (q == p)) [
  | inl here ↦ rw here k
  | inr other ↦ rw other (k.0, add_free-All P p pages h k.1)
]

-- An insertion into a page that is not full.
pub insert_into-Stored :
    (size : ℕ) (bytes : List ℕ) (file : RecordFile) (p : ℕ) (f : Frame)
    → IsValid size file
    → length bytes ≡ size
    → file.pages.content p ≡ some f
    → get_bit file.pages.pool.header.bitmap p ≡ true
    → is_full f ≡ false
    → (i : ℕ) × (file' : RecordFile) × (insert_into bytes p file
        ≡ some (Rc.success, some (p, i), file'))
      × Stored size bytes file file' p i
unfolding insert_into open_page is_full
insert_into-Stored size bytes file p f v whole found marked room =
    let h = open_page file f in
    let real = v.page_size p f found in
    elim (insert_record_lem bytes h (v.page_valid p f found) (whole ∙ sym real)) [
      | inl (full, e) ↦ absurd (ground arith)
      | inr (i, h', less, e, ins) ↦ (
        i,
        close_page p h' file,
        rw (found, e, insert_into) refl,
        record {
          was_free = view_at-page file p f i found ∙ ins.was_free;
          views = λ q j.
              view_at-close file p f h' q j found
              ∙ one_page file p f found q j i bytes h' ins.holds;
          valid =
              close_page-IsValid size file p f h' v found ins.holds.valid
                (ins.holds.real_size ∙ real) (λ free. absurd (cc (sym free ∙ marked)));
        },
      )
    ]
