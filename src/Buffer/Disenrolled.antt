-- ===== src/Buffer/Disenrolled.antt =====
-- lwis_buffer.c: enrolling a buffer and disenrolling it.
use mathlib.Core.Option.{some-injective}
use google_modules_lwis.Prelude.{
  ℕ, ◌≡◌, refl, sym, ap, subst, ◌∙◌, some, List, [], ◌∷◌, ◌++◌, inl, inr, Option-cases,
}
use google_modules_lwis.Buffer.{
  Kernel, BufferInfo, EnrolledBuffer, BufferClient, Enrollment, DmaCall, give_back, called,
  dma_buffer_unmap, lwis_buffer_enroll, lwis_buffer_disenroll,
}
use google_modules_lwis.Buffer.Enrolled.{AreInUse}
use google_modules_lwis.Buffer.Balanced.{
  Hold, step, run, holds, run-one, run-give_back, Enrolls, enrolled, refused,
  lwis_buffer_enroll-Enrolls,
}

run-append :
    (hs more : List Hold) (xs ys : List DmaCall)
    → run hs xs ≡ some more
    → run hs (xs ++ ys) ≡ run more ys
unfolding run
run-append hs more [] ys h = ap (λ (l : List Hold). run l ys) (some-injective _ _ h)
run-append hs more (x ∷ xs) ys h = elim (Option-cases (step hs x)) [
  | inl stuck ↦ absurd (cc (rw (stuck, run) at h))
  | inr (hs', e) ↦ rw (e, run) (run-append hs' more xs ys (rw (e, run) at h))
]

append_assoc : (xs ys zs : List DmaCall) → (xs ++ ys) ++ zs ≡ xs ++ (ys ++ zs)
append_assoc [] ys zs = refl
append_assoc (x ∷ xs) ys zs = ap (λ (l : List DmaCall). x ∷ l) (append_assoc xs ys zs)

-- The table is that of `c`, and what the calls since then took was given back.
pub record Restores (c c' : BufferClient) : Type 0 where
  pub table : c'.enrolled_buffers ≡ c.enrolled_buffers
  pub calls : List DmaCall
  pub logged : c'.calls ≡ c.calls ++ calls
  pub nothing_held : run [] calls ≡ some []

run-disenroll :
    (b : EnrolledBuffer)
    → run (holds b) (dma_buffer_unmap b.dma_buf_attachment (b.info).dma_vaddr ∷ give_back b)
      ≡ some []
unfolding step
run-disenroll b = run-one (holds b) (holds b) _ (give_back b) refl ∙ run-give_back b

enrolled-Restores :
    (c : BufferClient) (fd : ℕ) (b : EnrolledBuffer) (r : Enrollment)
    → Enrolls c [] fd r
    → r.buffer ≡ some b
    → Restores c (lwis_buffer_disenroll r.client b)
unfolding lwis_buffer_disenroll called
enrolled-Restores c fd b r (enrolled b' calls ret buffer of logged held adds undone still) is_b =
    subst (λ (x : EnrolledBuffer). Restores c (lwis_buffer_disenroll r.client x))
      (some-injective _ _ (sym buffer ∙ is_b))
      (record {
        table = undone;
        calls = calls ++ gives_back;
        logged =
            ap (λ (l : List DmaCall). l ++ gives_back) logged
            ∙ append_assoc c.calls calls gives_back;
        nothing_held = run-append [] (holds b') calls gives_back held ∙ run-disenroll b';
      })
  where
    gives_back : List DmaCall
    gives_back = dma_buffer_unmap b'.dma_buf_attachment (b'.info).dma_vaddr ∷ give_back b'
enrolled-Restores c fd b r (refused calls buffer logged held table) is_b =
    absurd (cc (sym buffer ∙ is_b))

-- Disenrolling a buffer that was just enrolled brings the table back as it was, and all references
-- and mappings that the two took are given back.
pub lwis_buffer_disenroll-enroll :
    (kernel : Kernel) (c : BufferClient) (info : BufferInfo) (b : EnrolledBuffer)
    → AreInUse c.enrolled_buffers
    → (lwis_buffer_enroll kernel c info).buffer ≡ some b
    → Restores c (lwis_buffer_disenroll (lwis_buffer_enroll kernel c info).client b)
lwis_buffer_disenroll-enroll kernel c info b in_use is_b =
    enrolled-Restores c info.fd b _ (lwis_buffer_enroll-Enrolls kernel c info in_use) is_b
