-- ===== src/Protocol/Batches.antt =====
-- The stored files packed into several messages of limited size.
use mathlib.Core.Path.{subst}
use mathlib.Core.List.{append_assoc, append-nil, flatten}
use mfsync.Common.{ℕ, ◌≤◌, ◌≡◌, refl, sym, ap, ◌∙◌, ◌⊎◌, inl, inr, Bool, true, false}
use mfsync.Common.{Bytes, arith, Outcome, ok, throws, undefined, List, [], ◌∷◌, ◌++◌, length, ltb}
use mfsync.Common.{◌>>=◌, Fails, Outcome-cases}
use mfsync.Info.{FileInformation}
use mfsync.Json.{JsonLib}
use mfsync.Protocol.{max_message_size}
use mfsync.Protocol.Fields.{element_json, elements_json, batch_loop, create_messages_from_file_info}

module _ (J : JsonLib) where
  -- A message within the limit, or one that holds a single element or none.
  abbrev pub IsSmall : List J.Json → Bytes → Type 0
  IsSmall b m = (length m ≤ max_message_size) ⊎ (length b ≤ 1)

  -- The messages are the dumps of the arrays, and each is small.
  abbrev pub Packed : List (List J.Json) → List Bytes → Type 0
  Packed [] [] = Unit {0}
  Packed [] (m ∷ ms) = ⊥
  Packed (b ∷ bs) [] = ⊥
  Packed (b ∷ bs) (m ∷ ms) = (J.dump (J.array b) ≡ ok m) × IsSmall b m × Packed bs ms

  -- Consecutive elements of a list.
  abbrev pub Part : List J.Json → List J.Json → Type 0
  Part b js = (before : List J.Json) × (after : List J.Json) × (before ++ (b ++ after) ≡ js)

  -- What is left of the loop, from a pending array and the messages so far.
  abbrev pub Packs : List J.Json → List Bytes → Outcome (List Bytes) → Type 0
  Packs js result (ok msgs) =
      (bs : List (List J.Json)) × (ms : List Bytes) × (msgs ≡ result ++ ms)
      × (flatten bs ≡ js)
      × Packed bs ms
  Packs js result (throws e) = (b : List J.Json) × Part b js × (J.dump (J.array b) ≡ throws e)
  Packs js result undefined = (b : List J.Json) × Part b js × (J.dump (J.array b) ≡ undefined)

  abbrev Pending : List J.Json → Type 0
  Pending arr = (m : Bytes) → J.dump (J.array arr) ≡ ok m → IsSmall arr m

  Packs-Fails :
      (js b : List J.Json) (result : List Bytes) (o : Outcome Bytes)
      (k : Bytes → Outcome (List Bytes))
      → J.dump (J.array b) ≡ o
      → Fails o
      → Part b js
      → Packs js result (o >>= k)
  Packs-Fails js b result (ok t) k e f p = absurd f
  Packs-Fails js b result (throws x) k e f p = (b, p, e)
  Packs-Fails js b result undefined k e f p = (b, p, e)

  Part-append : (arr b js : List J.Json) → Part b js → Part b (arr ++ js)
  Part-append arr b js (before, after, e) =
      (arr ++ before, after, append_assoc arr before (b ++ after) ∙ ap (◌++◌ arr) e)

  Packs-flush :
      (arr js : List J.Json) (result : List Bytes) (m : Bytes) (o : Outcome (List Bytes))
      → J.dump (J.array arr) ≡ ok m
      → IsSmall arr m
      → Packs js (result ++ (m ∷ [])) o
      → Packs (arr ++ js) result o
  unfolding flatten
  Packs-flush arr js result m (ok msgs) d s (bs, ms, e, f, p) =
      (arr ∷ bs, m ∷ ms, e ∙ append_assoc result (m ∷ []) ms, ap (◌++◌ arr) f, (d, s, p))
  Packs-flush arr js result m (throws x) d s (b, p, e) = (b, Part-append arr b js p, e)
  Packs-flush arr js result m undefined d s (b, p, e) = (b, Part-append arr b js p, e)

  Packs-split :
      (b : Bool) (js : List J.Json) (result : List Bytes) (x y : Outcome (List Bytes))
      → (b ≡ true → Packs js result x)
      → (b ≡ false → Packs js result y)
      → Packs js result (elim b [ true ↦ x | false ↦ y ])
  Packs-split true js result x y h k = h refl
  Packs-split false js result x y h k = k refl

  fits :
      {o : Outcome Bytes} (m t : Bytes)
      → o ≡ ok m
      → o ≡ ok t
      → ltb max_message_size (length m) ≡ false
      → length t ≤ max_message_size
  fits m t d e small = ground arith

  batch_loop-Packs :
      (port : ℕ) (fs : List FileInformation) (arr : List J.Json) (result : List Bytes)
      → Pending arr
      → Packs (arr ++ elements_json J port fs) result (batch_loop J port fs arr result)
  unfolding batch_loop elements_json flatten
  batch_loop-Packs port [] [] result s = ([], [], sym (append-nil result), refl, tt)
  batch_loop-Packs port [] (j ∷ arr) result s = elim (Outcome-cases (J.dump (J.array (j ∷ arr)))) [
    | inl (m, d) ↦ rw d ((j ∷ arr) ∷ [], m ∷ [], refl, refl, (d, s m d, tt))
    | inr f ↦ Packs-Fails _ (j ∷ arr) result _ _ refl f ([], [], refl)
  ]
  batch_loop-Packs port (f ∷ fs) arr result s =
      let element = element_json J port f in
      let tmp = arr ++ (element ∷ []) in
      elim (Outcome-cases (J.dump (J.array tmp))) [
        | inr bad ↦
            Packs-Fails _ tmp result _ _ refl bad
              ([], elements_json J port fs, append_assoc arr (element ∷ []) _)
        | inl (m, d) ↦ rw d (
            Packs-split (ltb max_message_size (length m)) _ result _ _
              (λ big. elim (Outcome-cases (J.dump (J.array arr))) [
                | inr bad ↦
                    Packs-Fails _ arr result _ _ refl bad
                      ([], element ∷ elements_json J port fs, refl)
                | inl (t, e) ↦ rw e (
                    Packs-flush arr _ result t _ e (s t e) (
                      batch_loop-Packs port fs (element ∷ []) (result ++ (t ∷ []))
                        (λ _ _. inr (omega arith))))
              ])
              (λ small.
                subst (λ js. Packs js result (batch_loop J port fs tmp result))
                  (append_assoc arr (element ∷ []) _)
                  (batch_loop-Packs port fs tmp result (λ t e. inl (fits m t d e small)))))
      ]

  -- The messages are the dumps of consecutive parts of the list of elements, which together make up
  -- the whole list; a message longer than the limit holds at most one element. The only other outcome
  -- is that of a dump of consecutive elements of the list, where that throws or is undefined.
  pub create_messages-Packs :
      (fs : List FileInformation) (port : ℕ)
      → Packs (elements_json J port fs) [] (create_messages_from_file_info J fs port)
  unfolding create_messages_from_file_info
  create_messages-Packs fs port = batch_loop-Packs port fs [] [] (λ m d. inr (omega arith))
