-- ===== src/Params/Keeps.antt =====
-- What a run of param_parse_txt leaves of the parameters, whatever the file holds.
use data_commoms.Base.{◌≡◌, refl, ◌∙◌, Bool, true}
use data_commoms.Params.{FloatText, Param, Value}
use data_commoms.Params.Bounds.{Sound}

module _ (fl : FloatText) where
  -- The declaration is as it was, a change is not taken back, and a sound value stays sound.
  pub record Kept (p q : Param fl) : Type 0 where
    pub same_type : q.type ≡ p.type
    pub same_list_type : q.list_type ≡ p.list_type
    pub same_len : q.room ≡ p.room
    pub same_name : q.name ≡ p.name
    pub same_desc : q.desc ≡ p.desc
    pub same_duty : q.is_mandatory ≡ p.is_mandatory
    pub stays_changed : p.has_changed ≡ true → q.has_changed ≡ true
    pub stays_sound : Sound fl p.type p.room p.val → Sound fl q.type q.room q.val

  pub Kept-refl : (p : Param fl) → Kept p p
  Kept-refl p = record {
    same_type = refl;
    same_list_type = refl;
    same_len = refl;
    same_name = refl;
    same_desc = refl;
    same_duty = refl;
    stays_changed = λ h. h;
    stays_sound = λ h. h;
  }

  pub Kept-trans : (p q r : Param fl) → Kept p q → Kept q r → Kept p r
  Kept-trans p q r a b = record {
    same_type = b.same_type ∙ a.same_type;
    same_list_type = b.same_list_type ∙ a.same_list_type;
    same_len = b.same_len ∙ a.same_len;
    same_name = b.same_name ∙ a.same_name;
    same_desc = b.same_desc ∙ a.same_desc;
    same_duty = b.same_duty ∙ a.same_duty;
    stays_changed = λ h. b.stays_changed (a.stays_changed h);
    stays_sound = λ h. b.stays_sound (a.stays_sound h);
  }

  -- Another value.
  pub Kept-val :
      (p : Param fl) (v : Value fl) (b : Bool)
      → (p.has_changed ≡ true → b ≡ true)
      → (Sound fl p.type p.room p.val → Sound fl p.type p.room v)
      → Kept p (record p { val = v; has_changed = b })
  Kept-val p v b h s = record {
    same_type = refl;
    same_list_type = refl;
    same_len = refl;
    same_name = refl;
    same_desc = refl;
    same_duty = refl;
    stays_changed = h;
    stays_sound = s;
  }
