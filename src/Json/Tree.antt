-- ===== src/Json/Tree.antt =====
-- Values of JSON, QCSerialization/include/QCJson.h, over a type of numbers. The lists of entries and of
-- values inside of objects and arrays stand in one block with them.
use qaiosplus.Base.{ℕ, Bool, List}

mutual
  pub data Value (D : Type 0) : Type 0 where
    null : Value D
    boolean : Bool → Value D
    number : D → Value D
    string : List ℕ → Value D
    object : Members D → Value D
    array : Elements D → Value D

  pub data Members (D : Type 0) : Type 0 where
    no_members : Members D
    member : List ℕ → Value D → Members D → Members D

  pub data Elements (D : Type 0) : Type 0 where
    no_elements : Elements D
    element : Value D → Elements D → Elements D
