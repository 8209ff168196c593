-- ===== src/Blk.antt =====
-- The virtio block device of tools/virtio/devices/blk/virtio_blk.c: one request, from its descriptor
-- chain to the used ring. `preadv`, `pwritev`, `fdatasync` and `snprintf` are those of the host.
pub mod Performs
pub mod Threads
pub mod Complete
pub mod Worker
pub mod Ops
use hvisor_tool.Base.{
  ℕ, zero, suc, ◌+◌, ◌-◌, ◌*◌, ◌%◌, ◌^◌, min, Bool, true, false, not, ◌&&◌, ◌||◌, List, [], ◌∷◌,
  Option, none, some, get_elem?, length, ltb, leb, ◌==◌, if◌then◌else◌,
}
use hvisor_tool.Memory.{Memory, null, load32, load64, store8}
use hvisor_tool.Device.{Transfer, moved, errno}
use hvisor_tool.ZoneMemory.{ZoneMem}
use hvisor_tool.Queue.{VirtQueue, UsedElem, update_used_ring, advance_avail, next_avail}
use hvisor_tool.Chain.{
  Outcome, ok, failed, fault, ◌>>=◌, Iovec, VirtioBufConfig, VirtioRequest, chain_len,
  process_descriptor_chain_buf,
}

-- VIRTQUEUE_BLK_MAX_SIZE and SECTOR_BSIZE
abbrev pub virtqueue_blk_max_size : ℕ
virtqueue_blk_max_size = 512

abbrev pub sector_bsize : ℕ
sector_bsize = 512

-- EIO and EOPNOTSUPP
abbrev pub eio : ℕ
eio = 5

abbrev pub eopnotsupp : ℕ
eopnotsupp = 95

-- The host's calls on the backing image, whose contents are an `Img`.
pub record BlkHost (Img : Type 0) : Type 0 where
  pub preadv : Img → Memory → List Iovec → ℕ → Memory × Transfer
  pub pwritev : Img → Memory → List Iovec → ℕ → Img × Transfer
  pub fdatasync : Img → Img × Transfer
  pub snprintf_id : Memory → Iovec → Memory

-- `BlkReqHead`, at `p`.
abbrev pub head_type : Memory → ℕ → ℕ
head_type m p = load32 m p

abbrev pub head_sector : Memory → ℕ → ℕ
head_sector m p = load64 m (p + 8)

-- What `blk_complete` stores for an error: VIRTIO_BLK_S_OK, VIRTIO_BLK_S_UNSUPP or VIRTIO_BLK_S_IOERR.
unfoldable pub status_of : ℕ → ℕ
status_of err = if err == 0 then 0 else if err == eopnotsupp then 2 else 1

-- `st` is the address of the status byte, or NULL.
unfoldable pub blk_complete : Memory → VirtQueue → ℕ → ℕ → ℕ → ℕ → Memory
blk_complete m vq idx st err wlen =
    let m' = if st == null then m else store8 m st (status_of err) in
    update_used_ring m' vq (record { id = idx; len = (wlen + 1) % 2 ^ 32 })

-- The last entry of an array and those before it.
unfoldable pub last_iov : List Iovec → Option (List Iovec × Iovec)
last_iov [] = none
last_iov (b ∷ bs) = elim (last_iov bs) [
  | none ↦ some ([], b)
  | some (front, l) ↦ some (b ∷ front, l)
]

-- What the checks of `virtq_blk_handle_one_request` accept: the header's address, the buffers that the
-- device reads after it, the buffers that it writes before the status byte, and that byte.
pub record Layout : Type 0 where
  pub hdr : ℕ
  pub out_data : List Iovec
  pub in_data : List Iovec
  pub status : Iovec

unfoldable pub check_layout : Memory → VirtioRequest → Option Layout
check_layout m req = elim req.out_iov [
  | [] ↦ none
  | head ∷ out_data ↦ elim (last_iov req.in_iov) [
    | none ↦ none
    | some (in_data, st) ↦
        let sides : Bool =
          if head_type m head.iov_base == 1
          then length req.in_iov == 1
          else length req.out_iov == 1 in
        if leb 2 (chain_len req)
          && leb (chain_len req) virtqueue_blk_max_size
          && (head.iov_len == 16)
          && (st.iov_len == 1)
          && sides
        then some
            (record { hdr = head.iov_base; out_data = out_data; in_data = in_data; status = st })
        else none
  ]
]

-- The error and `wlen` of a read, a write and a flush.
unfoldable pub read_result : Transfer → ℕ × ℕ
read_result (moved n) = (0, n)
read_result (errno e) = (e, 0)

unfoldable pub write_result : Transfer → ℕ × ℕ
write_result (moved n) = (0, 0)
write_result (errno e) = (e, 0)

-- `&vreq.in_iov[0]`
abbrev pub first_in : Layout → Iovec
first_in l = elim l.in_data [ [] ↦ l.status | b ∷ bs ↦ b ]

module _ {Img : Type 0} (host : BlkHost Img) where
  -- The switch over the request type: the memory, the image, the error and `wlen`.
  unfoldable pub perform : Memory → Img → Layout → Memory × Img × ℕ × ℕ
  perform m img l =
      let type = head_type m l.hdr in
      let off = head_sector m l.hdr * sector_bsize % 2 ^ 64 in
      let (read_m, read_t) = host.preadv img m l.in_data off in
      let (written, write_t) = host.pwritev img m l.out_data off in
      let (flushed, flush_t) = host.fdatasync img in
      let (read_err, read_len) = read_result read_t in
      if type == 0
      then (read_m, img, read_err, read_len)
      else if type == 1
      then (m, written, (write_result write_t).0, 0)
      else if type == 4
      then (m, flushed, (write_result flush_t).0, 0)
      else if type == 8
      then (host.snprintf_id m (first_in l), img, 0, min 14 (first_in l).iov_len)
      else (m, img, eopnotsupp, 0)

  unfoldable pub virtq_blk_handle_one_request :
      ZoneMem → ℕ → Memory → VirtQueue → Img → Outcome (Memory × VirtQueue × Img)
  virtq_blk_handle_one_request z zone_id m vq img =
      let desc_idx = next_avail m vq in
      let cfg : VirtioBufConfig = record {
        max_out = virtqueue_blk_max_size;
        max_in = virtqueue_blk_max_size;
      } in
      elim (process_descriptor_chain_buf m z zone_id cfg vq desc_idx) [
        | fault ↦ fault
        | failed ↦ ok (blk_complete m (advance_avail vq) desc_idx null eio 0, advance_avail vq, img)
        | ok (vq', req) ↦
            if chain_len req == 0
            then ok (blk_complete m (advance_avail vq') desc_idx null eio 0, advance_avail vq', img)
            else elim (check_layout m req) [
              | none ↦ ok (blk_complete m vq' desc_idx null eio 0, vq', img)
              | some l ↦
                  let (m1, img1, err, wlen) = perform m img l in
                  ok (blk_complete m1 vq' desc_idx l.status.iov_base err wlen, vq', img1)
            ]
      ]
