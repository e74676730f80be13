-- ===== src/Data/TypedObject/Tests.antt =====
-- An object linked to variable 4 of the client, and one with a source and a validator.
use module_flow.Prelude.{ℕ, ◌≡◌, refl, ◌+◌, some, [], ℤ, pos, negsuc, if◌then◌else◌, ltb}
use module_flow.Container.HashMap.{find, valueref}
use module_flow.Object.Connections.{observers}
use module_flow.Data.Flags.{initial_flags}
use module_flow.Data.TypedObject.{
  TypedObject, link_variable, link_functions, before_read, unlink, connect_self,
}
use module_flow.Data.TypedObject.Links.{
  IsLinked, IsChecked, link_variable-IsLinked, link_functions-IsChecked,
}

abbrev fresh : TypedObject ℕ
fresh = record {
  connections_ = [];
  flags_ = initial_flags;
  ctrl_ = pos 0;
  data_ = 0;
  variables = λ p. p + 10;
  calls = [];
}

-- A validator that takes values below 100, and stores 100 in the place of others.
abbrev below_hundred : ℕ → ℤ × ℕ
below_hundred n = if ltb n 100 then (pos 0, n) else (negsuc 0, 100)

link_variable-IsLinked_example : IsLinked 1 4 (link_variable 1 (some 4) fresh)
unfolding observers valueref find
link_variable-IsLinked_example = link_variable-IsLinked 1 fresh (λ a n. refl) (λ a n. refl) 4

link_functions-IsChecked_example :
    IsChecked 1
      (λ vars. vars 4)
      below_hundred
      (link_functions 1 (some λ vars. vars 4) (some below_hundred) fresh)
unfolding observers valueref find
link_functions-IsChecked_example =
    link_functions-IsChecked 1 fresh (λ a n. refl) (λ a n. refl) (λ vars. vars 4) below_hundred

-- A read through the link takes the value of variable 4.
read_through : (before_read (link_variable 1 (some 4) fresh)).0.data_ ≡ 14
unfolding link_variable unlink connect_self
read_through = link_variable-IsLinked_example.reads (link_variable 1 (some 4) fresh) refl
