-- ===== src/Buffer/Reach.antt =====
-- lwis_buffer.c: the tables that enrolling, disenrolling and clearing lead to.
use google_modules_lwis.Prelude.{
  ℕ, ◌≡◌, sym, subst, inl, inr, Option, none, some, List, [], ◌∷◌, ◌==◌, Bool-cases,
}
use google_modules_lwis.Buffer.{
  Kernel, BufferInfo, EnrolledBuffer, EnrollmentList, BufferClient, Enrollment, hash_del, without,
  list_del, disenroll_in, disenroll_all, disenroll_lists, lwis_buffer_enroll, lwis_buffer_disenroll,
  lwis_client_enrolled_buffers_clear, called,
}
use google_modules_lwis.Buffer.Enrolled.{AreInUse, put-AreInUse}
use google_modules_lwis.Buffer.Balanced.{Enrolls, enrolled, refused, lwis_buffer_enroll-Enrolls}
use google_modules_lwis.Buffer.Disenrolled.{Restores, lwis_buffer_disenroll-enroll}

-- The clients that the calls lead to from one without enrolled buffers. The answers of the kernel
-- may differ from call to call, and `mem` of the client may be any.
pub data Reach : BufferClient → Type 0 where
  start : (c : BufferClient) → c.enrolled_buffers ≡ [] → Reach c
  enroll :
      (kernel : Kernel) (c : BufferClient) (info : BufferInfo)
      → Reach c
      → Reach (lwis_buffer_enroll kernel c info).client
  disenroll : (c : BufferClient) (b : EnrolledBuffer) → Reach c → Reach (lwis_buffer_disenroll c b)
  clear : (c : BufferClient) → Reach c → Reach (lwis_client_enrolled_buffers_clear c)

hash_del-AreInUse : (ls : List EnrollmentList) (v : ℕ) → AreInUse ls → AreInUse (hash_del ls v)
unfolding hash_del
hash_del-AreInUse [] v h = tt
hash_del-AreInUse (l ∷ ls) v h = elim (Bool-cases (l.vaddr == v)) [
  | inl here ↦ rw (here, hash_del) h.1
  | inr past ↦ rw (past, hash_del) (h.0, hash_del-AreInUse ls v h.1)
]

without-AreInUse :
    (ls : List EnrollmentList) (v : ℕ) (bs : List EnrolledBuffer)
    → AreInUse ls
    → AreInUse (without ls v bs)
unfolding without
without-AreInUse ls v [] h = hash_del-AreInUse ls v h
without-AreInUse ls v (b ∷ bs) h = put-AreInUse ls v (b ∷ bs) (λ e. cc e) h

disenroll_in-AreInUse :
    (ls : List EnrollmentList) (b : EnrolledBuffer) (o : Option EnrollmentList)
    → AreInUse ls
    → AreInUse (disenroll_in ls b o)
unfolding disenroll_in
disenroll_in-AreInUse ls b none h = h
disenroll_in-AreInUse ls b (some l) h =
    without-AreInUse ls (b.info).dma_vaddr (list_del (b.info).fd (b.info).dma_vaddr l.list) h

disenroll-AreInUse :
    (c : BufferClient) (b : EnrolledBuffer)
    → AreInUse c.enrolled_buffers
    → AreInUse (lwis_buffer_disenroll c b).enrolled_buffers
unfolding lwis_buffer_disenroll called
disenroll-AreInUse c b h = disenroll_in-AreInUse c.enrolled_buffers b _ h

disenroll_all-AreInUse :
    (c : BufferClient) (bs : List EnrolledBuffer)
    → AreInUse c.enrolled_buffers
    → AreInUse (disenroll_all c bs).enrolled_buffers
unfolding disenroll_all
disenroll_all-AreInUse c [] h = h
disenroll_all-AreInUse c (b ∷ bs) h =
    disenroll_all-AreInUse (lwis_buffer_disenroll c b) bs (disenroll-AreInUse c b h)

disenroll_lists-AreInUse :
    (c : BufferClient) (ls : List EnrollmentList)
    → AreInUse c.enrolled_buffers
    → AreInUse (disenroll_lists c ls).enrolled_buffers
unfolding disenroll_lists
disenroll_lists-AreInUse c [] h = h
disenroll_lists-AreInUse c (l ∷ ls) h =
    disenroll_lists-AreInUse (disenroll_all c l.list) ls (disenroll_all-AreInUse c l.list h)

Enrolls-AreInUse :
    (c : BufferClient) (fd : ℕ) (r : Enrollment)
    → AreInUse c.enrolled_buffers
    → Enrolls c [] fd r
    → AreInUse (r.client).enrolled_buffers
Enrolls-AreInUse c fd r h (enrolled b calls ret buffer of logged held adds undone still) = still
Enrolls-AreInUse c fd r h (refused calls buffer logged held table) = subst AreInUse (sym table) h

Reach-AreInUse : (c : BufferClient) → Reach c → AreInUse c.enrolled_buffers
unfolding lwis_client_enrolled_buffers_clear
Reach-AreInUse _ (start c empty) = subst AreInUse (sym empty) tt
Reach-AreInUse _ (enroll kernel c info h) =
    let in_use = Reach-AreInUse c h in
    Enrolls-AreInUse c info.fd _ in_use (lwis_buffer_enroll-Enrolls kernel c info in_use)
Reach-AreInUse _ (disenroll c b h) = disenroll-AreInUse c b (Reach-AreInUse c h)
Reach-AreInUse _ (clear c h) = disenroll_lists-AreInUse c c.enrolled_buffers (Reach-AreInUse c h)

-- Whatever a client enrolled, disenrolled and cleared before, enrolling a buffer either puts it in
-- the table, under its fd and an address that had no buffer of this fd, and holds one reference,
-- one attachment and one mapping for it, or leaves the table and holds nothing: on each error
-- it gives back what it took, in the opposite order.
pub Reach-Enrolls :
    (kernel : Kernel) (c : BufferClient) (info : BufferInfo)
    → Reach c
    → Enrolls c [] info.fd (lwis_buffer_enroll kernel c info)
Reach-Enrolls kernel c info h = lwis_buffer_enroll-Enrolls kernel c info (Reach-AreInUse c h)

-- In such a state, disenrolling a buffer that was just enrolled brings the table back as it was,
-- and all references and mappings that the two took are given back.
pub Reach-Restores :
    (kernel : Kernel) (c : BufferClient) (info : BufferInfo) (b : EnrolledBuffer)
    → Reach c
    → (lwis_buffer_enroll kernel c info).buffer ≡ some b
    → Restores c (lwis_buffer_disenroll (lwis_buffer_enroll kernel c info).client b)
Reach-Restores kernel c info b h is_b =
    lwis_buffer_disenroll-enroll kernel c info b (Reach-AreInUse c h) is_b
