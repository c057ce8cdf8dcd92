-- ===== src/Buffer/Balanced.antt =====
-- lwis_buffer.c: the references and mappings that enrolling a buffer takes, and giving them back.
use google_modules_lwis.Prelude.{
  ℕ, ◌≡◌, refl, ap, ◌∙◌, inl, inr, Option, none, some, List, [], ◌∷◌, ◌++◌, arith, ◌==◌, ◌&&◌,
  Bool-cases, if◌then◌else◌,
}
use google_modules_lwis.Buffer.{
  Kernel, BufferInfo, EnrolledBuffer, BufferClient, Enrollment, DmaCall, dma_buf_get, dma_buf_put,
  dma_buf_attach, dma_buf_detach, dma_buf_map, dma_buf_unmap, dma_buffer_unmap, is_err_or_null,
  give_back, called, mapped, attached, got, enroll_direction, is_valid, bare, lwis_buffer_enroll,
}
use google_modules_lwis.Buffer.Enrolled.{
  Adds, Undone, AreInUse, Added, added, not_added, add_enrollment-Added,
}

-- What is held of a buffer, the last first: a reference, an attachment, a mapping.
pub data Hold : Type 0 where
  reference : ℕ → Hold
  attachment mapping : ℕ → ℕ → Hold

-- A call on what is held; only what was taken last can be given back.
unfoldable pub step : List Hold → DmaCall → Option (List Hold)
step hs (dma_buf_get b) = some (reference b ∷ hs)
step hs (dma_buf_attach b a) = some (attachment b a ∷ hs)
step hs (dma_buf_map a t) = some (mapping a t ∷ hs)
step (reference b ∷ hs) (dma_buf_put c) = if b == c then some hs else none
step (attachment b a ∷ hs) (dma_buf_detach c d) = if b == c && a == d then some hs else none
step (mapping a t ∷ hs) (dma_buf_unmap d u) = if a == d && t == u then some hs else none
step hs (dma_buffer_unmap a v) = some hs
step hs _ = none

unfoldable pub run : List Hold → List DmaCall → Option (List Hold)
run hs [] = some hs
run hs (x ∷ calls) = elim (step hs x) [ none ↦ none | some hs' ↦ run hs' calls ]

-- What an enrolled buffer holds.
abbrev pub holds : EnrolledBuffer → List Hold
holds b =
    mapping b.dma_buf_attachment b.sg_table
    ∷ attachment b.dma_buf b.dma_buf_attachment
    ∷ reference b.dma_buf
    ∷ []

-- What an enrollment leaves, where `taken` was held before its calls.
pub data Enrolls (c : BufferClient) (taken : List Hold) (fd : ℕ) (r : Enrollment) : Type 0 where
  enrolled :
      (b : EnrolledBuffer) (calls : List DmaCall)
      → r.ret ≡ 0
      → r.buffer ≡ some b
      → (b.info).fd ≡ fd
      → (r.client).calls ≡ c.calls ++ calls
      → run taken calls ≡ some (holds b)
      → Adds c.enrolled_buffers (r.client).enrolled_buffers b
      → Undone c.enrolled_buffers (r.client).enrolled_buffers b
      → AreInUse (r.client).enrolled_buffers
      → Enrolls c taken fd r
  refused :
      (calls : List DmaCall)
      → r.buffer ≡ none
      → (r.client).calls ≡ c.calls ++ calls
      → run taken calls ≡ some []
      → (r.client).enrolled_buffers ≡ c.enrolled_buffers
      → Enrolls c taken fd r

append_nil : (xs : List DmaCall) → xs ≡ xs ++ []
append_nil [] = refl
append_nil (x ∷ xs) = ap (λ (l : List DmaCall). x ∷ l) (append_nil xs)

append_one :
    (xs : List DmaCall) (x : DmaCall) (ys : List DmaCall) → (xs ++ x ∷ []) ++ ys ≡ xs ++ x ∷ ys
append_one [] x ys = refl
append_one (z ∷ xs) x ys = ap (λ (l : List DmaCall). z ∷ l) (append_one xs x ys)

step-put : (b : ℕ) (hs : List Hold) → step (reference b ∷ hs) (dma_buf_put b) ≡ some hs
unfolding step
step-put b hs = ground arith

step-detach : (b a : ℕ) (hs : List Hold) → step (attachment b a ∷ hs) (dma_buf_detach b a) ≡ some hs
unfolding step
step-detach b a hs = ground arith

step-unmap : (a t : ℕ) (hs : List Hold) → step (mapping a t ∷ hs) (dma_buf_unmap a t) ≡ some hs
unfolding step
step-unmap a t hs = ground arith

pub run-one :
    (hs more : List Hold) (x : DmaCall) (calls : List DmaCall)
    → step hs x ≡ some more
    → run hs (x ∷ calls) ≡ run more calls
unfolding run
run-one hs more x calls e = rw (e, run) refl

run-put : (b : ℕ) → run (reference b ∷ []) (dma_buf_put b ∷ []) ≡ some []
unfolding run
run-put b = run-one _ [] (dma_buf_put b) [] (step-put b [])

run-detach :
    (b a : ℕ)
    → run (attachment b a ∷ reference b ∷ []) (dma_buf_detach b a ∷ dma_buf_put b ∷ []) ≡ some []
run-detach b a =
    run-one _ (reference b ∷ []) (dma_buf_detach b a) (dma_buf_put b ∷ [])
      (step-detach b a (reference b ∷ []))
    ∙ run-put b

-- Giving back all that a buffer holds.
pub run-give_back : (b : EnrolledBuffer) → run (holds b) (give_back b) ≡ some []
run-give_back b =
    run-one (holds b) _ _ _ (
      step-unmap b.dma_buf_attachment b.sg_table
        (attachment b.dma_buf b.dma_buf_attachment ∷ reference b.dma_buf ∷ []))
    ∙ run-detach b.dma_buf b.dma_buf_attachment

-- One more call in front.
called-Enrolls :
    (c : BufferClient) (taken more : List Hold) (x : DmaCall) (fd : ℕ) {r : Enrollment}
    → step taken x ≡ some more
    → Enrolls (called c (x ∷ [])) more fd r
    → Enrolls c taken fd r
unfolding called run
called-Enrolls c taken more x fd e (enrolled b calls ret buffer of logged held adds undone still) =
    enrolled b (x ∷ calls) ret buffer of (logged ∙ append_one c.calls x calls) (rw (e, run) held)
      adds undone still
called-Enrolls c taken more x fd e (refused calls buffer logged held table) =
    refused (x ∷ calls) buffer (logged ∙ append_one c.calls x calls) (rw (e, run) held) table

Added-Enrolls :
    (c : BufferClient) (b : EnrolledBuffer) (fd : ℕ) {r : Enrollment}
    → (b.info).fd ≡ fd
    → Added c b r
    → Enrolls c (holds b) fd r
unfolding run
Added-Enrolls c b fd of (added ret buffer logged adds undone still) =
    enrolled b [] ret buffer of (logged ∙ append_nil c.calls) refl adds undone still
Added-Enrolls c b fd of (not_added ret buffer logged table) =
    refused (give_back b) buffer logged (run-give_back b) table

module _ (kernel : Kernel) where
  mapped-Enrolls :
      (c : BufferClient) (b : EnrolledBuffer)
      → AreInUse c.enrolled_buffers
      → Enrolls c (holds b) (b.info).fd (mapped kernel c b)
  unfolding mapped called
  mapped-Enrolls c b in_use =
      elim (Bool-cases (is_err_or_null (kernel.sg_dma_address b.sg_table))) [
        | inl bad ↦ rw (bad, mapped) (refused (give_back b) refl refl (run-give_back b) refl)
        | inr fine ↦
            rw (fine, mapped) (Added-Enrolls c _ (b.info).fd refl (add_enrollment-Added c _ in_use))
      ]

  attached-Enrolls :
      (c : BufferClient) (b : EnrolledBuffer)
      → AreInUse c.enrolled_buffers
      → Enrolls c
          (attachment b.dma_buf b.dma_buf_attachment ∷ reference b.dma_buf ∷ [])
          (b.info).fd
          (attached kernel c b)
  unfolding attached called step
  attached-Enrolls c b in_use =
      let table : ℕ = kernel.map_attachment b.dma_buf_attachment b.dma_direction in
      elim (Bool-cases (is_err_or_null table)) [
        | inl bad ↦
            rw (bad, attached)
              (refused _ refl refl (run-detach b.dma_buf b.dma_buf_attachment) refl)
        | inr fine ↦
            rw (fine, attached)
              (called-Enrolls c _ _ (dma_buf_map b.dma_buf_attachment table) (b.info).fd refl
                (mapped-Enrolls _ (record b { sg_table = table }) in_use))
      ]

  got-Enrolls :
      (c : BufferClient) (b : EnrolledBuffer)
      → AreInUse c.enrolled_buffers
      → Enrolls c (reference b.dma_buf ∷ []) (b.info).fd (got kernel c b)
  unfolding got called step
  got-Enrolls c b in_use =
      let a : ℕ = kernel.attach b.dma_buf in
      elim (Bool-cases (is_err_or_null a)) [
        | inl bad ↦ rw (bad, got) (refused _ refl refl (run-put b.dma_buf) refl)
        | inr fine ↦
            rw (fine, got)
              (called-Enrolls c _ _ (dma_buf_attach b.dma_buf a) (b.info).fd refl
                (attached-Enrolls _ (record b { dma_buf_attachment = a }) in_use))
      ]

  -- Where no list of the table is empty, enrolling a buffer either puts it in the table, under its fd
  -- and an address that had no buffer of this fd, and holds one reference, one attachment and one mapping for it, or leaves the table
  -- and holds nothing: on each error it gives back what it took, in the opposite order.
  pub lwis_buffer_enroll-Enrolls :
      (c : BufferClient) (info : BufferInfo)
      → AreInUse c.enrolled_buffers
      → Enrolls c [] info.fd (lwis_buffer_enroll kernel c info)
  unfolding lwis_buffer_enroll called step run
  lwis_buffer_enroll-Enrolls c info in_use =
      elim (Bool-cases (is_valid (enroll_direction info.dma_read info.dma_write))) [
        | inr invalid ↦ rw invalid (refused [] refl refl refl refl)
        | inl valid ↦ elim (Bool-cases (is_err_or_null (kernel.get info.fd))) [
          | inl bad ↦ rw (valid, bad) (refused [] refl refl refl refl)
          | inr fine ↦
              rw (valid, fine)
                (called-Enrolls c [] _ (dma_buf_get (kernel.get info.fd)) info.fd refl (
                  got-Enrolls _
                    (bare info (enroll_direction info.dma_read info.dma_write) (kernel.get info.fd))
                    in_use))
        ]
      ]
