-- ===== src/Protocols/Control/Served.antt =====
-- How the host gets the manifest: its size, and its bytes (subsys/greybus/control-gpb.c).
use greybus_for_zephyr.Base.{
  ℕ, ◌+◌, ◌≤◌, ◌<◌, ◌^◌, ◌≡◌, ap, ◌∙◌, sym, true, some, List, length, take, arith,
}
use greybus_for_zephyr.OpResult
use greybus_for_zephyr.Core.{Operation, State, World, hdr_size}
use greybus_for_zephyr.Protocols.{bytes_at, le_bytes, le16_at}
use greybus_for_zephyr.Protocols.Answers.{
  response_payload, response_size, with_response_lem, with_response-size, bytes_at-take,
  length-take, length-bytes_at,
}
use greybus_for_zephyr.Protocols.Control

module _ ⦃w : World⦄ ⦃c : Control.Control⦄ where
  get_manifest_lem :
      (mh : List ℕ) (p : ℕ) (op : Operation) (s : State)
      → c.bridge_manifest ≡ some mh
      → le16_at mh 0 < 2 ^ 16
      → s.ops p ≡ some op
      → w.alloc_buf s.trace (le16_at mh 0 + hdr_size) ≡ true
      → let (code, s') = Control.gb_control_get_manifest p s in
        (code ≡ OpResult.success) × (response_payload p s' ≡ some (bytes_at mh 0 (le16_at mh 0)))
  unfolding Control.gb_control_get_manifest
  get_manifest_lem mh p op s set small there room =
      let whole = length-bytes_at mh 0 (le16_at mh 0) in
      let done =
        with_response_lem p (bytes_at mh 0 (le16_at mh 0)) op s there (omega (arith, whole))
          (rw whole room) in
      rw set (rw whole at done)

  get_manifest-size :
      (mh : List ℕ) (p : ℕ) (op : Operation) (s : State)
      → c.bridge_manifest ≡ some mh
      → le16_at mh 0 + hdr_size < 2 ^ 16
      → s.ops p ≡ some op
      → w.alloc_buf s.trace (le16_at mh 0 + hdr_size) ≡ true
      → let (code, s') = Control.gb_control_get_manifest p s in
        response_size p s' ≡ some (le16_at mh 0 + hdr_size)
  unfolding Control.gb_control_get_manifest
  get_manifest-size mh p op s set small there room =
      let whole = length-bytes_at mh 0 (le16_at mh 0) in
      let sized =
        with_response-size p (bytes_at mh 0 (le16_at mh 0)) op s there (omega (arith, whole))
          (rw whole room) in
      rw set (rw whole at sized)

  -- The host that asks for the manifest's size and for the manifest is told the size of what it
  -- gets, and gets the manifest, up to the size that the manifest's header states, in a response
  -- that states its own size: where there is a manifest, as long as its header says at least, of
  -- bytes, whose size and the response's header together fit in 16 bits, and room for the two
  -- responses.
  pub manifest_served :
      (mh : List ℕ) (p : ℕ) (op : Operation) (s : State)
      → c.bridge_manifest ≡ some mh
      → le16_at mh 0 ≤ length mh
      → le16_at mh 0 + hdr_size < 2 ^ 16
      → s.ops p ≡ some op
      → w.alloc_buf s.trace (2 + hdr_size) ≡ true
      → w.alloc_buf s.trace (le16_at mh 0 + hdr_size) ≡ true
      → let (code₁, s₁) = Control.gb_control_get_manifest_size p s in
        let (code₂, s₂) = Control.gb_control_get_manifest p s in
        let served = take (le16_at mh 0) mh in
        (code₁ ≡ OpResult.success)
        × (response_payload p s₁ ≡ some (le_bytes 2 (length served)))
        × (code₂ ≡ OpResult.success)
        × (response_payload p s₂ ≡ some served)
        × (response_size p s₂ ≡ some (length served + hdr_size))
  unfolding Control.gb_control_get_manifest_size
  manifest_served mh p op s set long small there room₁ room₂ =
      let count = length-take mh (le16_at mh 0) long in
      let size : Control.get_manifest_size ≡ length (take (le16_at mh 0) mh) =
        ap Control.size_of_blob set ∙ sym count in
      let (told, size_told) =
        with_response_lem p (le_bytes 2 Control.get_manifest_size) op s there (omega arith) room₁ in
      let (given, bytes_given) = get_manifest_lem mh p op s set (omega arith) there room₂ in
      let stated = get_manifest-size mh p op s set small there room₂ in
      (
        told,
        size_told ∙ ap (λ n. some (le_bytes 2 n)) size,
        given,
        bytes_given ∙ ap some (bytes_at-take mh (le16_at mh 0) long),
        stated ∙ ap (λ n. some (n + hdr_size)) (sym count),
      )
