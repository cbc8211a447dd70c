-- ===== src/Store/Snapshots.antt =====
-- The snapshots of rows in octonomy/audit/services.py.
use octonomy.Json.{Json, opt_text, opt_uuid, text, bool, uuid, instant, field, end, object}
use octonomy.Catalog.{Tag, TagAlias, Vocabulary}
use octonomy.Store.{TagAssignment}

-- `assignment_snapshot`
unfoldable pub assignment_snapshot : TagAssignment → Json
assignment_snapshot a = object (
    field "id" (uuid a.id) (
      field "tenant_id" (text a.tenant_id) (
        field "application_id" (text a.application_id) (
          field "tag_id" (uuid a.tag_id) (
            field "resource_type" (text a.resource_type) (
              field "resource_id" (text a.resource_id) (
                field "assigned_by" (opt_text a.assigned_by)
                  (field "assigned_at" (instant a.assigned_at) end))))))))

-- `tag_snapshot`
unfoldable pub tag_snapshot : Tag → Json
tag_snapshot t = object (
    field "id" (uuid t.id) (
      field "tenant_id" (text t.tenant_id) (
        field "application_id" (opt_text t.application_id) (
          field "name" (text t.name) (
            field "slug" (text t.slug) (
              field "type" (text t.type) (
                field "description" (opt_text t.description) (
                  field "parent_id" (opt_uuid t.parent_id) (
                    field "vocabulary_id" (opt_uuid t.vocabulary_id) (
                      field "metadata" t.metadata (
                        field "is_active" (bool t.is_active) (
                          field "created_at" (instant t.created_at)
                            (field "updated_at" (instant t.updated_at) end)))))))))))))

-- `tag_alias_snapshot`
unfoldable pub tag_alias_snapshot : TagAlias → Json
tag_alias_snapshot a = object (
    field "id" (uuid a.id) (
      field "tenant_id" (text a.tenant_id) (
        field "application_id" (opt_text a.application_id) (
          field "tag_id" (uuid a.tag_id) (
            field "name" (text a.name) (
              field "slug" (text a.slug) (
                field "metadata" a.metadata (
                  field "is_active" (bool a.is_active) (
                    field "created_at" (instant a.created_at)
                      (field "updated_at" (instant a.updated_at) end))))))))))

-- `vocabulary_snapshot`
unfoldable pub vocabulary_snapshot : Vocabulary → Json
vocabulary_snapshot v = object (
    field "id" (uuid v.id) (
      field "tenant_id" (text v.tenant_id) (
        field "application_id" (opt_text v.application_id) (
          field "name" (text v.name) (
            field "slug" (text v.slug) (
              field "description" (opt_text v.description) (
                field "metadata" v.metadata (
                  field "is_active" (bool v.is_active) (
                    field "created_at" (instant v.created_at)
                      (field "updated_at" (instant v.updated_at) end))))))))))
