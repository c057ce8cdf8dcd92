-- ===== src/Buffer/Enrolled.antt =====
-- lwis_buffer.c: what an enrollment does to the table of enrolled buffers.
use mathlib.Core.Option.{some-injective}
use google_modules_lwis.Prelude.{
  ℕ, ◌≡◌, ◌≢◌, refl, sym, ap, subst, ◌∙◌, inl, inr, Bool, true, false, Option, none, some, List, [],
  ◌∷◌, ◌++◌, arith, All, ◌==◌, ==_iff, Bool-cases, Option-cases, if◌then◌else◌,
}
use google_modules_lwis.Errno.{einval}
use google_modules_lwis.Device.{kmalloc}
use google_modules_lwis.Buffer.{
  EnrolledBuffer, EnrollmentList, BufferClient, Enrollment, enrollment_list_find, put_buffers,
  is_buffer, find_buffer, find_in, enrollment_list_create, found_or_created,
  enrollment_list_find_or_create, add_enrollment, is_some, give_back, called, disenroll_in, without,
  hash_del, list_del,
}

-- What a search for a buffer finds in a table.
unfoldable pub buffer_at : List EnrollmentList → ℕ → ℕ → Option EnrolledBuffer
buffer_at ls fd dma_vaddr = find_in fd dma_vaddr (enrollment_list_find ls dma_vaddr)

-- The table with one more buffer, which was not there.
pub record Adds (ls ls' : List EnrollmentList) (b : EnrolledBuffer) : Type 0 where
  pub new : buffer_at ls (b.info).fd (b.info).dma_vaddr ≡ none
  pub found :
      (fd dma_vaddr : ℕ)
      → buffer_at ls' fd dma_vaddr
        ≡ (if is_buffer fd dma_vaddr b then some b else buffer_at ls fd dma_vaddr)

-- Disenrolling the buffer brings the table back.
abbrev pub Undone : List EnrollmentList → List EnrollmentList → EnrolledBuffer → Type 0
Undone ls ls' b = disenroll_in ls' b (enrollment_list_find ls' (b.info).dma_vaddr) ≡ ls

-- No list is empty.
abbrev pub AreInUse : List EnrollmentList → Type 0
AreInUse ls = All (λ (l : EnrollmentList). l.list ≢ []) ls

buffer_at-put :
    (ls : List EnrollmentList) (v : ℕ) (bs : List EnrolledBuffer) (l : EnrollmentList) (fd w : ℕ)
    → enrollment_list_find ls v ≡ some l
    → buffer_at (put_buffers ls v bs) fd w
      ≡ (if v == w then find_buffer fd w bs else buffer_at ls fd w)
unfolding buffer_at enrollment_list_find put_buffers find_in
buffer_at-put [] v bs l fd w h = absurd (cc h)
buffer_at-put (k ∷ ls) v bs l fd w h = ground (arith, buffer_at-put ls v bs l fd w)

find_buffer-append :
    (fd v : ℕ) (bs : List EnrolledBuffer) (b : EnrolledBuffer)
    → find_buffer (b.info).fd (b.info).dma_vaddr bs ≡ none
    → find_buffer fd v (bs ++ b ∷ []) ≡ (if is_buffer fd v b then some b else find_buffer fd v bs)
unfolding find_buffer
find_buffer-append fd v [] b h = refl
find_buffer-append fd v (x ∷ bs) b h = ground (arith, find_buffer-append fd v bs b)

at_list :
    (ls : List EnrollmentList) (v w : ℕ) (o : Option EnrollmentList) (fd : ℕ)
    → enrollment_list_find ls v ≡ o
    → (v == w) ≡ true
    → buffer_at ls fd w ≡ find_in fd w o
unfolding buffer_at
at_list ls v w o fd has same =
    ap (find_in fd w) (subst (λ (x : ℕ). enrollment_list_find ls x ≡ o) ((==_iff v w).0 same) has)

put_one :
    (ls : List EnrollmentList) (l : EnrollmentList) (b : EnrolledBuffer) (fd v : ℕ)
    → enrollment_list_find ls (b.info).dma_vaddr ≡ some l
    → find_buffer (b.info).fd (b.info).dma_vaddr l.list ≡ none
    → (if (b.info).dma_vaddr == v then find_buffer fd v (l.list ++ b ∷ []) else buffer_at ls fd v)
      ≡ (if is_buffer fd v b then some b else buffer_at ls fd v)
unfolding find_in
put_one ls l b fd v has new = elim (Bool-cases ((b.info).dma_vaddr == v)) [
  | inr other ↦ ground (arith, other)
  | inl same ↦
      ap (λ (t : Bool). if t then find_buffer fd v (l.list ++ b ∷ []) else buffer_at ls fd v) same
      ∙ find_buffer-append fd v l.list b new
      ∙ ap (λ (o : Option EnrolledBuffer). if is_buffer fd v b then some b else o)
          (sym (at_list ls (b.info).dma_vaddr v (some l) fd has same))
]

-- A table that has the list of the buffer, with the buffer behind it.
put-Adds :
    (ls : List EnrollmentList) (l : EnrollmentList) (b : EnrolledBuffer)
    → enrollment_list_find ls (b.info).dma_vaddr ≡ some l
    → find_buffer (b.info).fd (b.info).dma_vaddr l.list ≡ none
    → Adds ls (put_buffers ls (b.info).dma_vaddr (l.list ++ b ∷ [])) b
unfolding buffer_at find_in
put-Adds ls l b has new = record {
  new = rw has new;
  found = λ fd v.
      buffer_at-put ls (b.info).dma_vaddr (l.list ++ b ∷ []) l fd v has
      ∙ put_one ls l b fd v has new;
}

-- An empty list holds no buffer.
buffer_at-empty :
    (ls : List EnrollmentList) (v fd w : ℕ)
    → enrollment_list_find ls v ≡ none
    → buffer_at (record { vaddr = v; list = [] } ∷ ls) fd w ≡ buffer_at ls fd w
unfolding buffer_at enrollment_list_find find_in find_buffer
buffer_at-empty ls v fd w h = elim (Bool-cases (v == w)) [
  | inl same ↦ rw same (sym (at_list ls v w none fd h same))
  | inr other ↦ rw other refl
]

list_del-append :
    (bs : List EnrolledBuffer) (b : EnrolledBuffer)
    → find_buffer (b.info).fd (b.info).dma_vaddr bs ≡ none
    → list_del (b.info).fd (b.info).dma_vaddr (bs ++ b ∷ []) ≡ bs
unfolding find_buffer list_del
list_del-append [] b h = ground arith
list_del-append (x ∷ bs) b h = ground (arith, list_del-append bs b)

find-put :
    (ls : List EnrollmentList) (v : ℕ) (bs : List EnrolledBuffer) (l : EnrollmentList)
    → enrollment_list_find ls v ≡ some l
    → enrollment_list_find (put_buffers ls v bs) v ≡ some (record l { list = bs })
unfolding enrollment_list_find put_buffers
find-put [] v bs l h = absurd (cc h)
find-put (k ∷ ls) v bs l h = elim (Bool-cases (k.vaddr == v)) [
  | inl here ↦
      rw (here, enrollment_list_find)
        (rw here (
          ap (λ (x : EnrollmentList). some (record x { list = bs }))
            (some-injective _ _ (rw here at h))))
  | inr past ↦ rw (past, enrollment_list_find) (rw past (find-put ls v bs l (rw past at h)))
]

put-put :
    (ls : List EnrollmentList) (v : ℕ) (bs : List EnrolledBuffer) (l : EnrollmentList)
    → enrollment_list_find ls v ≡ some l
    → put_buffers (put_buffers ls v bs) v l.list ≡ ls
unfolding enrollment_list_find put_buffers
put-put [] v bs l h = absurd (cc h)
put-put (k ∷ ls) v bs l h = elim (Bool-cases (k.vaddr == v)) [
  | inl here ↦
      rw (here, put_buffers)
        (rw here (
          ap (λ (x : EnrollmentList). record k { list = x.list } ∷ ls)
            (sym (some-injective _ _ (rw here at h)))))
  | inr past ↦
      rw (past, put_buffers)
        (rw past (ap (λ (xs : List EnrollmentList). k ∷ xs) (put-put ls v bs l (rw past at h))))
]

without-some :
    (ls : List EnrollmentList) (v : ℕ) (bs : List EnrolledBuffer)
    → bs ≢ []
    → without ls v bs ≡ put_buffers ls v bs
unfolding without
without-some ls v [] h = absurd (h refl)
without-some ls v (b ∷ bs) h = refl

list_in_use :
    (ls : List EnrollmentList) (v : ℕ) (l : EnrollmentList)
    → AreInUse ls
    → enrollment_list_find ls v ≡ some l
    → l.list ≢ []
unfolding enrollment_list_find
list_in_use [] v l in_use h = absurd (cc h)
list_in_use (k ∷ ls) v l in_use h = elim (Bool-cases (k.vaddr == v)) [
  | inl here ↦
      subst (λ (x : EnrollmentList). x.list ≢ []) (some-injective _ _ (rw here at h)) in_use.0
  | inr past ↦ list_in_use ls v l in_use.1 (rw past at h)
]

put-Undone :
    (ls : List EnrollmentList) (l : EnrollmentList) (b : EnrolledBuffer)
    → enrollment_list_find ls (b.info).dma_vaddr ≡ some l
    → find_buffer (b.info).fd (b.info).dma_vaddr l.list ≡ none
    → l.list ≢ []
    → Undone ls (put_buffers ls (b.info).dma_vaddr (l.list ++ b ∷ [])) b
unfolding disenroll_in
put-Undone ls l b has new in_use =
    let v : ℕ = (b.info).dma_vaddr in
    let ls' : List EnrollmentList = put_buffers ls v (l.list ++ b ∷ []) in
    ap (disenroll_in ls' b) (find-put ls v (l.list ++ b ∷ []) l has)
    ∙ ap (without ls' v) (list_del-append l.list b new)
    ∙ without-some ls' v l.list in_use
    ∙ put-put ls v (l.list ++ b ∷ []) l has

pub put-AreInUse :
    (ls : List EnrollmentList) (v : ℕ) (bs : List EnrolledBuffer)
    → bs ≢ []
    → AreInUse ls
    → AreInUse (put_buffers ls v bs)
unfolding put_buffers
put-AreInUse [] v bs filled h = tt
put-AreInUse (l ∷ ls) v bs filled h = elim (Bool-cases (l.vaddr == v)) [
  | inl here ↦ rw (here, put_buffers) (filled, h.1)
  | inr past ↦ rw (past, put_buffers) (h.0, put-AreInUse ls v bs filled h.1)
]

append-filled : (bs : List EnrolledBuffer) (b : EnrolledBuffer) → bs ++ b ∷ [] ≢ []
append-filled [] b h = cc h
append-filled (x ∷ bs) b h = cc h

-- What comes of the last step of an enrollment, which gives back what was taken if it fails.
pub data Added (c : BufferClient) (b : EnrolledBuffer) (r : Enrollment) : Type 0 where
  added :
      r.ret ≡ 0
      → r.buffer ≡ some b
      → (r.client).calls ≡ c.calls
      → Adds c.enrolled_buffers (r.client).enrolled_buffers b
      → Undone c.enrolled_buffers (r.client).enrolled_buffers b
      → AreInUse (r.client).enrolled_buffers
      → Added c b r
  not_added :
      r.ret ≡ einval
      → r.buffer ≡ none
      → (r.client).calls ≡ c.calls ++ give_back b
      → (r.client).enrolled_buffers ≡ c.enrolled_buffers
      → Added c b r

none-is_some : (o : Option EnrolledBuffer) → is_some o ≡ false → o ≡ none
unfolding is_some
none-is_some none h = refl
none-is_some (some b) h = absurd (cc h)

some-is_some : (o : Option EnrolledBuffer) → o ≡ none → is_some o ≡ false
unfolding is_some
some-is_some o h = rw h refl

-- The buffer's list was there.
add_enrollment-found :
    (c : BufferClient) (b : EnrolledBuffer) (l : EnrollmentList)
    → AreInUse c.enrolled_buffers
    → enrollment_list_find c.enrolled_buffers (b.info).dma_vaddr ≡ some l
    → Added c b (add_enrollment b (some l, c))
unfolding add_enrollment called
add_enrollment-found c b l in_use has =
    elim (Bool-cases (is_some (find_buffer (b.info).fd (b.info).dma_vaddr l.list))) [
      | inl old ↦ rw old (not_added refl refl refl refl)
      | inr new ↦ rw new (
          let absent = none-is_some (find_buffer (b.info).fd (b.info).dma_vaddr l.list) new in
          added refl refl refl (put-Adds c.enrolled_buffers l b has absent)
            (put-Undone c.enrolled_buffers l b has absent
              (list_in_use c.enrolled_buffers (b.info).dma_vaddr l in_use has))
            (put-AreInUse c.enrolled_buffers (b.info).dma_vaddr (l.list ++ b ∷ [])
              (append-filled l.list b) in_use))
    ]

find-created :
    (v : ℕ) (ls : List EnrollmentList)
    → enrollment_list_find (record { vaddr = v; list = [] } ∷ ls) v
      ≡ some (record { vaddr = v; list = [] })
unfolding enrollment_list_find
find-created v ls = ground arith

Adds-created :
    (ls ls' : List EnrollmentList) (b : EnrolledBuffer)
    → enrollment_list_find ls (b.info).dma_vaddr ≡ none
    → Adds (record { vaddr = (b.info).dma_vaddr; list = [] } ∷ ls) ls' b
    → Adds ls ls' b
Adds-created ls ls' b absent h = record {
  new = sym (buffer_at-empty ls (b.info).dma_vaddr (b.info).fd (b.info).dma_vaddr absent) ∙ h.new;
  found = λ fd v.
      h.found fd v
      ∙ ap (λ (o : Option EnrolledBuffer). if is_buffer fd v b then some b else o)
          (buffer_at-empty ls (b.info).dma_vaddr fd v absent);
}

create-Undone :
    (ls : List EnrollmentList) (b : EnrolledBuffer)
    → Undone ls
        (put_buffers
          (record { vaddr = (b.info).dma_vaddr; list = [] } ∷ ls)
          (b.info).dma_vaddr
          (b ∷ []))
        b
unfolding disenroll_in without hash_del put_buffers enrollment_list_find list_del
create-Undone ls b = ground arith

create-AreInUse :
    (ls : List EnrollmentList) (v : ℕ) (b : EnrolledBuffer)
    → AreInUse ls
    → AreInUse (put_buffers (record { vaddr = v; list = [] } ∷ ls) v (b ∷ []))
unfolding put_buffers
create-AreInUse ls v b h = rw ((==_iff v v).1 refl, put_buffers) ((λ e. cc e), h)

-- The buffer's list is made.
create-Added :
    (c : BufferClient) (b : EnrolledBuffer) (answer : Bool × List Bool)
    → enrollment_list_find c.enrolled_buffers (b.info).dma_vaddr ≡ none
    → AreInUse c.enrolled_buffers
    → Added c b (add_enrollment b (enrollment_list_create c (b.info).dma_vaddr answer))
unfolding add_enrollment enrollment_list_create called find_buffer is_some
create-Added c b (false, mem) absent in_use = not_added refl refl refl refl
create-Added c b (true, mem) absent in_use =
    let l : EnrollmentList = record { vaddr = (b.info).dma_vaddr; list = [] } in
    added refl refl refl
      (Adds-created c.enrolled_buffers _ b absent (
        put-Adds (l ∷ c.enrolled_buffers) l b (find-created (b.info).dma_vaddr c.enrolled_buffers)
          refl))
      (create-Undone c.enrolled_buffers b)
      (create-AreInUse c.enrolled_buffers (b.info).dma_vaddr b in_use)

pub add_enrollment-Added :
    (c : BufferClient) (b : EnrolledBuffer)
    → AreInUse c.enrolled_buffers
    → Added c b (add_enrollment b (enrollment_list_find_or_create c (b.info).dma_vaddr))
unfolding enrollment_list_find_or_create found_or_created enrollment_list_create
add_enrollment-Added c b in_use =
    elim (Option-cases (enrollment_list_find c.enrolled_buffers (b.info).dma_vaddr)) [
      | inr (l, has) ↦ rw (has, found_or_created) (add_enrollment-found c b l in_use has)
      | inl absent ↦ rw (absent, found_or_created) (create-Added c b (kmalloc c.mem) absent in_use)
    ]
