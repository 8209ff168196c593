-- ===== src/Blk/Performs.antt =====
-- What a well-formed request of tools/virtio/devices/blk/virtio_blk.c does, by its type.
use hvisor_tool.Base.{
  ℕ, ◌+◌, ◌*◌, ◌%◌, ◌^◌, min, if◌then◌else◌, ◌≡◌, ◌≢◌, ◌⊎◌, refl, inl, inr, List, [], ◌∷◌, ◌++◌,
  ◌==◌, arith, Bool-cases,
}
use hvisor_tool.Memory.{Memory, null, load32, load64, store8}
use hvisor_tool.Device.{Transfer, moved, errno}
use hvisor_tool.Chain.{Iovec}
use hvisor_tool.Blk.{
  eopnotsupp, status_of, read_result, write_result, first_in, BlkHost, Layout, perform,
}

-- The status byte of the specification for an error number: VIRTIO_BLK_S_OK for none,
-- VIRTIO_BLK_S_UNSUPP for EOPNOTSUPP and VIRTIO_BLK_S_IOERR for any other.
abbrev pub IsStatus : ℕ → ℕ → Type 0
IsStatus err status =
    ((err ≡ 0) × (status ≡ 0))
    ⊎ ((err ≡ 95) × (status ≡ 2))
    ⊎ ((err ≢ 0) × (err ≢ 95) × (status ≡ 1))

status_of-IsStatus : (err : ℕ) → IsStatus err (status_of err)
unfolding status_of
status_of-IsStatus err = elim (Bool-cases (err == 0)) [
  | inl e ↦ inl (ground arith, rw e refl)
  | inr e ↦ elim (Bool-cases (err == eopnotsupp)) [
    | inl u ↦ inr (inl (ground arith, rw (e, u) refl))
    | inr u ↦ inr (inr (ground arith, ground arith, rw (e, u) refl))
  ]
]

ok_status : status_of 0 ≡ 0
unfolding status_of
ok_status = refl

unsupported_status : status_of eopnotsupp ≡ 2
unfolding status_of
unsupported_status = refl

-- The status byte, stored where there is a place for it.
abbrev pub put_status : Memory → ℕ → ℕ → Memory
put_status m st status = if st == null then m else store8 m st status

-- Where a request's data starts in the image.
abbrev pub offset_of : Memory → Layout → ℕ
offset_of m l = load64 m (l.hdr + 8) * 512 % 2 ^ 64

module _ {Img : Type 0} (host : BlkHost Img) where
  -- What a well-formed request does, by its type: the memory and the image that it leaves, its status
  -- byte and the number of data bytes that the guest is told were written.
  pub data Performs (m : Memory) (img : Img) (l : Layout) (m1 : Memory) (img1 : Img)
      (status wlen : ℕ) : Type 0 where
    read :
        (n : ℕ)
        → load32 m l.hdr ≡ 0
        → host.preadv img m l.in_data (offset_of m l) ≡ (m1, moved n)
        → img1 ≡ img
        → status ≡ 0
        → wlen ≡ n
        → Performs m img l m1 img1 status wlen
    read_failed :
        (e : ℕ)
        → load32 m l.hdr ≡ 0
        → host.preadv img m l.in_data (offset_of m l) ≡ (m1, errno e)
        → img1 ≡ img
        → IsStatus e status
        → wlen ≡ 0
        → Performs m img l m1 img1 status wlen
    written :
        (n : ℕ)
        → load32 m l.hdr ≡ 1
        → host.pwritev img m l.out_data (offset_of m l) ≡ (img1, moved n)
        → m1 ≡ m
        → status ≡ 0
        → wlen ≡ 0
        → Performs m img l m1 img1 status wlen
    write_failed :
        (e : ℕ)
        → load32 m l.hdr ≡ 1
        → host.pwritev img m l.out_data (offset_of m l) ≡ (img1, errno e)
        → m1 ≡ m
        → IsStatus e status
        → wlen ≡ 0
        → Performs m img l m1 img1 status wlen
    flushed :
        (n : ℕ)
        → load32 m l.hdr ≡ 4
        → host.fdatasync img ≡ (img1, moved n)
        → m1 ≡ m
        → status ≡ 0
        → wlen ≡ 0
        → Performs m img l m1 img1 status wlen
    flush_failed :
        (e : ℕ)
        → load32 m l.hdr ≡ 4
        → host.fdatasync img ≡ (img1, errno e)
        → m1 ≡ m
        → IsStatus e status
        → wlen ≡ 0
        → Performs m img l m1 img1 status wlen
    identified :
        (b : Iovec) (more : List Iovec)
        → load32 m l.hdr ≡ 8
        → l.in_data ++ (l.status ∷ []) ≡ b ∷ more
        → m1 ≡ host.snprintf_id m b
        → img1 ≡ img
        → status ≡ 0
        → wlen ≡ min 14 b.iov_len
        → Performs m img l m1 img1 status wlen
    unsupported :
        load32 m l.hdr ≢ 0
        → load32 m l.hdr ≢ 1
        → load32 m l.hdr ≢ 4
        → load32 m l.hdr ≢ 8
        → m1 ≡ m
        → img1 ≡ img
        → status ≡ 2
        → wlen ≡ 0
        → Performs m img l m1 img1 status wlen

  module _ (m : Memory) (img : Img) (l : Layout) where
    read_case :
        (q : Memory × Transfer)
        → load32 m l.hdr ≡ 0
        → host.preadv img m l.in_data (offset_of m l) ≡ q
        → Performs m img l q.0 img (status_of (read_result q.1).0) (read_result q.1).1
    unfolding read_result
    read_case (m1, moved n) t e = read n t e refl ok_status refl
    read_case (m1, errno n) t e = read_failed n t e refl (status_of-IsStatus n) refl

    write_case :
        (q : Img × Transfer)
        → load32 m l.hdr ≡ 1
        → host.pwritev img m l.out_data (offset_of m l) ≡ q
        → Performs m img l m q.0 (status_of (write_result q.1).0) 0
    unfolding write_result
    write_case (img1, moved n) t e = written n t e refl ok_status refl
    write_case (img1, errno n) t e = write_failed n t e refl (status_of-IsStatus n) refl

    flush_case :
        (q : Img × Transfer)
        → load32 m l.hdr ≡ 4
        → host.fdatasync img ≡ q
        → Performs m img l m q.0 (status_of (write_result q.1).0) 0
    unfolding write_result
    flush_case (img1, moved n) t e = flushed n t e refl ok_status refl
    flush_case (img1, errno n) t e = flush_failed n t e refl (status_of-IsStatus n) refl

    first_in_lem :
        (in_data : List Iovec) (b : Iovec)
        → b ≡ elim in_data [ [] ↦ l.status | c ∷ cs ↦ c ]
        → (more : List Iovec) × (in_data ++ (l.status ∷ []) ≡ b ∷ more)
    first_in_lem [] b e = ([], rw e refl)
    first_in_lem (c ∷ cs) b e = (cs ++ (l.status ∷ []), rw e refl)

    pub perform-Performs :
        let p = perform host m img l in Performs m img l p.0 p.1 (status_of p.2) p.3
    unfolding perform
    perform-Performs = elim (Bool-cases (load32 m l.hdr == 0)) [
      | inl t ↦ rw t (read_case (host.preadv img m l.in_data (offset_of m l)) (ground arith) refl)
      | inr n0 ↦ elim (Bool-cases (load32 m l.hdr == 1)) [
        | inl t ↦
            rw (n0, t)
              (write_case (host.pwritev img m l.out_data (offset_of m l)) (ground arith) refl)
        | inr n1 ↦ elim (Bool-cases (load32 m l.hdr == 4)) [
          | inl t ↦ rw (n0, n1, t) (flush_case (host.fdatasync img) (ground arith) refl)
          | inr n4 ↦ elim (Bool-cases (load32 m l.hdr == 8)) [
            | inl t ↦
                let (more, split) = first_in_lem l.in_data (first_in l) refl in
                rw (n0, n1, n4, t)
                  (identified (first_in l) more (ground arith) split refl refl ok_status refl)
            | inr n8 ↦
                rw (n0, n1, n4, n8)
                  (unsupported (ground arith) (ground arith) (ground arith) (ground arith) refl refl
                    unsupported_status refl)
          ]
        ]
      ]
    ]
