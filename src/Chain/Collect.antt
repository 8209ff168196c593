-- ===== src/Chain/Collect.antt =====
-- What a request has gained from a list of descriptors.
use hvisor_tool.Base.{
  ℕ, ◌≤◌, ◌≡◌, sym, ap, ◌∙◌, List, [], ◌∷◌, ◌++◌, append-nil, append_assoc, length, length-append,
  All, All-append, arith,
}
use hvisor_tool.Memory.{Memory, VirtqDesc}
use hvisor_tool.ZoneMemory.{ZoneMem}
use hvisor_tool.Chain.{ok, VirtioBufConfig, VirtioRequest, push_descriptor, add_buffer}
use hvisor_tool.Chain.Flat.{
  readable, writable, IsTranslated, readable-append, writable-append, buffer_of,
}

module _ (m : Memory) (z : ZoneMem) (zone_id : ℕ) (cfg : VirtioBufConfig) where
  -- `req'` is `req` with the buffers of `ds` added on the sides that the guest gave, all of them
  -- translated, and neither array has grown past its capacity.
  pub record Collected (req : VirtioRequest) (ds : List VirtqDesc) (req' : VirtioRequest)
      : Type 0 where
    pub out : req'.out_iov ≡ req.out_iov ++ readable z zone_id ds
    pub written : req'.in_iov ≡ req.in_iov ++ writable z zone_id ds
    pub translated : All (IsTranslated z zone_id) ds
    pub out_fits : length req.out_iov ≤ cfg.max_out → length req'.out_iov ≤ cfg.max_out
    pub in_fits : length req.in_iov ≤ cfg.max_in → length req'.in_iov ≤ cfg.max_in

  pub Collected-nil : (req : VirtioRequest) → Collected req [] req
  Collected-nil req = record {
    out = sym (append-nil req.out_iov);
    written = sym (append-nil req.in_iov);
    translated = tt;
    out_fits = λ h. h;
    in_fits = λ h. h;
  }

  pub Collected-trans :
      {a b c : VirtioRequest} (ds es : List VirtqDesc)
      → Collected a ds b
      → Collected b es c
      → Collected a (ds ++ es) c
  Collected-trans {a} ds es p q = record {
    out =
        q.out
        ∙ ap (λ l. l ++ readable z zone_id es) p.out
        ∙ append_assoc a.out_iov (readable z zone_id ds) (readable z zone_id es)
        ∙ ap (◌++◌ a.out_iov) (sym (readable-append z zone_id ds es));
    written =
        q.written
        ∙ ap (λ l. l ++ writable z zone_id es) p.written
        ∙ append_assoc a.in_iov (writable z zone_id ds) (writable z zone_id es)
        ∙ ap (◌++◌ a.in_iov) (sym (writable-append z zone_id ds es));
    translated = All-append (IsTranslated z zone_id) ds es p.translated q.translated;
    out_fits = λ h. q.out_fits (p.out_fits h);
    in_fits = λ h. q.in_fits (p.in_fits h);
  }

  pub add_buffer-Collected :
      (d : VirtqDesc) (req req' : VirtioRequest)
      → add_buffer m z zone_id cfg d req ≡ ok req'
      → Collected req (d ∷ []) req'
  unfolding add_buffer push_descriptor
  add_buffer-Collected d req req' h = record {
    out = ground (arith, append-nil req.out_iov);
    written = ground (arith, append-nil req.in_iov);
    translated = (ground arith, tt);
    out_fits = λ fits. ground (arith, length-append req.out_iov (buffer_of z zone_id d ∷ []));
    in_fits = λ fits. ground (arith, length-append req.in_iov (buffer_of z zone_id d ∷ []));
  }
